-- ===== src/ClientIp/Trusted.antt =====
-- backend/src/clientip.rs: what a client sends does not change the address that it is taken to have.
use birdtest.Prelude.{
  ℕ, suc, ◌-◌, ◌≡◌, refl, sym, ◌∙◌, ap, inl, inr, Bool, Bool-cases, List-cases, true, false,
  if◌then◌else◌, List, [], ◌∷◌, ◌++◌, Option, some, ◌==◌, length, length-append, append_assoc,
  get_elem?, arith,
}
use mathlib.Core.List.{append-nil}
use birdtest.ClientIp.{Bytes, trim_ascii, split, trimmed, entries, or_else, resolve}

abbrev pub NoComma : Bytes → Type 0
NoComma [] = Unit
NoComma (b ∷ s) = ((b == b',') ≡ false) × NoComma s

-- What a proxy appends: one entry, with no space around it.
abbrev pub IsEntry : Bytes → Type 0
IsEntry [] = ⊥
IsEntry (b ∷ s) = NoComma (b ∷ s) × (trim_ascii (b ∷ s) ≡ b ∷ s)

-- A proxy that joins its entry to the value that the request came with, the last if there are several.
abbrev pub join_last : Bytes → List Bytes → List Bytes
join_last a [] = a ∷ []
join_last a (v ∷ []) = (v ++ b',' ∷ b' ' ∷ a) ∷ []
join_last a (v ∷ w ∷ vs) = v ∷ join_last a (w ∷ vs)

-- What a proxy sends on: its entry joined to the last value (true), or as a value of its own.
abbrev pub sent_on : Bool × Bytes → List Bytes → List Bytes
sent_on (joins, a) values = if joins then join_last a values else values ++ a ∷ []

-- What the last of the proxies sends on, the first of them named first.
abbrev pub through : List (Bool × Bytes) → List Bytes → List Bytes
through [] values = values
through (p ∷ ps) values = through ps (sent_on p values)

abbrev pub AllEntries : List (Bool × Bytes) → Type 0
AllEntries [] = Unit
AllEntries ((joins, a) ∷ ps) = IsEntry a × AllEntries ps

abbrev written_by : List (Bool × Bytes) → List Bytes
written_by [] = []
written_by ((joins, a) ∷ ps) = a ∷ written_by ps

length-written_by : (ps : List (Bool × Bytes)) → length (written_by ps) ≡ length ps
length-written_by [] = refl
length-written_by ((joins, a) ∷ ps) = ap suc (length-written_by ps)

split-NoComma : (s : Bytes) → NoComma s → split s ≡ s ∷ []
split-NoComma [] h = refl
split-NoComma (b ∷ s) (hb, h) = rw (hb, split-NoComma s h) refl

entries-append : (us vs : List Bytes) → entries (us ++ vs) ≡ entries us ++ entries vs
unfolding entries
entries-append [] vs = refl
entries-append (u ∷ us) vs =
    ap (λ z. trimmed (split u) ++ z) (entries-append us vs)
    ∙ sym (append_assoc (trimmed (split u)) (entries us) (entries vs))

trimmed-alone :
    (b : ℕ) (s : Bytes) → trim_ascii (b ∷ s) ≡ b ∷ s → trimmed ((b ∷ s) ∷ []) ≡ (b ∷ s) ∷ []
unfolding trimmed
trimmed-alone b s h = rw (h, trimmed) refl

split-some : (s : Bytes) → (v : Bytes) × (vs : List Bytes) × (split s ≡ v ∷ vs)
split-some [] = ([], [], refl)
split-some (b ∷ s) =
    let (v, vs, e) = split-some s in
    elim (Bool-cases (b == b',')) [
      | inl comma ↦ ([], split s, rw comma refl)
      | inr other ↦ (b ∷ v, vs, rw (other, e) refl)
    ]

-- A comma that is written on parts the text before it from the text after it.
split-comma : (s t : Bytes) → split (s ++ b',' ∷ t) ≡ split s ++ split t
split-comma [] t = refl
split-comma (b ∷ s) t =
    let (v, vs, e) = split-some s in
    elim (Bool-cases (b == b',')) [
      | inl comma ↦ rw (comma, split-comma s t) refl
      | inr other ↦ rw (other, split-comma s t, e) refl
    ]

trimmed-append : (us vs : List Bytes) → trimmed (us ++ vs) ≡ trimmed us ++ trimmed vs
unfolding trimmed
trimmed-append [] vs = refl
trimmed-append (u ∷ us) vs = elim (List-cases (trim_ascii u)) [
  | inl blank ↦ rw (blank, trimmed-append us vs, trimmed) refl
  | inr (b, t, e) ↦ rw (e, trimmed-append us vs, trimmed) refl
]

-- An entry, alone or after the space that follows a comma.
entry-alone : (a : Bytes) → IsEntry a → trimmed (split a) ≡ a ∷ []
entry-alone [] h = absurd h
entry-alone (b ∷ s) (plain, trim) =
    ap trimmed (split-NoComma (b ∷ s) plain) ∙ trimmed-alone b s trim

entry-spaced : (a : Bytes) → IsEntry a → trimmed (split (b' ' ∷ a)) ≡ a ∷ []
unfolding trimmed trim_ascii
entry-spaced [] h = absurd h
entry-spaced (b ∷ s) (plain, trim) =
    ap trimmed (split-NoComma (b' ' ∷ b ∷ s) (refl, plain)) ∙ trimmed-alone b s trim

entries-own : (a : Bytes) → IsEntry a → entries (a ∷ []) ≡ a ∷ []
unfolding entries
entries-own a h = ap (λ z. z ++ []) (entry-alone a h)

entries-join_last :
    (a : Bytes) (values : List Bytes)
    → IsEntry a
    → entries (join_last a values) ≡ entries values ++ a ∷ []
unfolding entries
entries-join_last a [] h = entries-own a h
entries-join_last a (v ∷ []) h =
    append-nil (trimmed (split (v ++ b',' ∷ b' ' ∷ a)))
    ∙ ap trimmed (split-comma v (b' ' ∷ a))
    ∙ trimmed-append (split v) (split (b' ' ∷ a))
    ∙ ap (λ z. trimmed (split v) ++ z) (entry-spaced a h)
    ∙ ap (λ z. z ++ a ∷ []) (sym (append-nil (trimmed (split v))))
entries-join_last a (v ∷ w ∷ vs) h =
    ap (λ z. trimmed (split v) ++ z) (entries-join_last a (w ∷ vs) h)
    ∙ sym (append_assoc (trimmed (split v)) (entries (w ∷ vs)) (a ∷ []))

entries-sent_on :
    (joins : Bool) (a : Bytes) (values : List Bytes)
    → IsEntry a
    → entries (sent_on (joins, a) values) ≡ entries values ++ a ∷ []
entries-sent_on true a values h = entries-join_last a values h
entries-sent_on false a values h =
    entries-append values (a ∷ []) ∙ ap (λ z. entries values ++ z) (entries-own a h)

entries-through :
    (ps : List (Bool × Bytes)) (values : List Bytes)
    → AllEntries ps
    → entries (through ps values) ≡ entries values ++ written_by ps
entries-through [] values h = sym (append-nil (entries values))
entries-through ((joins, a) ∷ ps) values (entry, rest) =
    entries-through ps (sent_on (joins, a) values) rest
    ∙ ap (λ z. z ++ written_by ps) (entries-sent_on joins a values entry)
    ∙ append_assoc (entries values) (a ∷ []) (written_by ps)

get_elem?-append :
    (us : List Bytes) (a : Bytes) (vs : List Bytes) → get_elem? (us ++ a ∷ vs) (length us) ≡ some a
get_elem?-append [] a vs = refl
get_elem?-append (u ∷ us) a vs = get_elem?-append us a vs

module _ {IpAddr : Type 0} (parse : Bytes → Option IpAddr) where
  -- With as many trusted hops as the proxies before the server, the client's address is read from the entry
  -- that the first of them wrote, whatever header values the client sent: each proxy sends its entry on, which
  -- has no comma and no outer space, either as a value of its own or after a comma and a space in the last
  -- value it was sent; and the peer is taken only where the first proxy's entry is no address.
  pub resolve-entry :
      (sent : List Bytes) (joins : Bool) (a : Bytes) (ps : List (Bool × Bytes))
      (peer : Option IpAddr)
      → AllEntries ((joins, a) ∷ ps)
      → resolve parse (through ((joins, a) ∷ ps) sent) peer (length ((joins, a) ∷ ps))
        ≡ or_else (parse a) peer
  unfolding resolve
  resolve-entry sent joins a ps peer h =
      let found = entries-through ((joins, a) ∷ ps) sent h in
      let size = length-append (entries sent) (a ∷ written_by ps) in
      let hops = length-written_by ps in
      let at : get_elem? (entries sent ++ a ∷ written_by ps)
            (length (entries sent ++ a ∷ written_by ps) - length ((joins, a) ∷ ps))
          ≡ some a =
        ap (get_elem? (entries sent ++ a ∷ written_by ps)) (omega (arith, size, hops))
        ∙ get_elem?-append (entries sent) a (written_by ps) in
      rw found (ground (arith, size, hops, at))
