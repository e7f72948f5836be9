-- ===== src/ClientIp.antt =====
-- backend/src/clientip.rs: the address that a request came from. An `X-Forwarded-For` value is a list of
-- bytes; the parser of addresses, which reads an entry that is UTF-8, is a parameter.
pub mod Trusted
mod Tests
use birdtest.Prelude.{
  ℕ, ◌-◌, Bool, true, false, not, ◌||◌, List, [], ◌∷◌, ◌++◌, reverse, Option, none, some, ltb, ◌==◌,
  if◌then◌else◌, length, get_elem?,
}

abbrev pub Bytes : Type 0
Bytes = List ℕ

abbrev is_ascii_whitespace : ℕ → Bool
is_ascii_whitespace b = b == 32 || (b == 9 || (b == 10 || (b == 12 || b == 13)))

abbrev trim_start : Bytes → Bytes
trim_start [] = []
trim_start (b ∷ s) = let rest = trim_start s in if is_ascii_whitespace b then rest else b ∷ s

-- `<[u8]>::trim_ascii`.
unfoldable pub trim_ascii : Bytes → Bytes
trim_ascii s = reverse (trim_start (reverse (trim_start s)))

abbrev pub onto_first : ℕ → List Bytes → List Bytes
onto_first b [] = (b ∷ []) ∷ []
onto_first b (s ∷ ss) = (b ∷ s) ∷ ss

-- `split(|&b| b == b',')`.
abbrev pub split : Bytes → List Bytes
split [] = [] ∷ []
split (b ∷ s) = let rest = split s in if b == b',' then [] ∷ rest else onto_first b rest

-- `.map(trim_ascii).filter(|entry| !entry.is_empty())`.
unfoldable pub trimmed : List Bytes → List Bytes
unfolding trim_ascii
trimmed [] = []
trimmed (s ∷ ss) =
    let rest = trimmed ss in elim (trim_ascii s) [ [] ↦ rest | b ∷ t ↦ (b ∷ t) ∷ rest ]

-- The entries of repeated headers are one list, in order.
unfoldable pub entries : List Bytes → List Bytes
unfolding trimmed
entries [] = []
entries (value ∷ values) = trimmed (split value) ++ entries values

abbrev pub or_else {ℓ} : {A : Type ℓ} → Option A → Option A → Option A
or_else none b = b
or_else (some a) b = some a

module _ {IpAddr : Type 0} (parse : Bytes → Option IpAddr) where
  -- The entry at `entries.len() - trusted_hops`; there is one, as there are that many and not none.
  unfoldable pub resolve : List Bytes → Option IpAddr → ℕ → Option IpAddr
  unfolding entries
  resolve values peer trusted_hops =
      let found = entries values in
      if trusted_hops == 0
      then peer
      else if ltb (length found) trusted_hops
      then peer
      else elim (get_elem? found (length found - trusted_hops)) [
        | none ↦ peer
        | some entry ↦ or_else (parse entry) peer
      ]

  -- `ClientIp`, with the unspecified address.
  unfoldable pub client_ip : IpAddr → List Bytes → Option IpAddr → ℕ → IpAddr
  unfolding resolve
  client_ip unspecified values peer trusted_hops = elim (resolve values peer trusted_hops) [
    | none ↦ unspecified
    | some ip ↦ ip
  ]
