-- ===== src/ClientIp/Tests.antt =====
-- The theorem about clientip.rs behind two proxies, with a parser of one digit, for a client that sends an
-- address of its own.
use birdtest.Prelude.{
  ℕ, ◌-◌, ◌≡◌, refl, Option, none, some, List, [], ◌∷◌, Bool, true, false, leb, ◌&&◌, if◌then◌else◌,
  length,
}
use birdtest.ClientIp.{Bytes, trim_ascii, or_else, resolve}
use birdtest.ClientIp.Trusted.{AllEntries, through, resolve-entry}

abbrev digit : Bytes → Option ℕ
digit (b ∷ []) = if leb b'0' b && leb b b'9' then some (b - b'0') else none
digit _ = none

-- ` 6,7`; the first proxy joins the entry 3 to it, and the second sends the entry 5 on its own.
abbrev claimed : List Bytes
claimed = (b' ' ∷ b'6' ∷ b',' ∷ b'7' ∷ []) ∷ []

abbrev proxies : List (Bool × Bytes)
proxies = (true, b'3' ∷ []) ∷ (false, b'5' ∷ []) ∷ []

proxies-AllEntries : AllEntries proxies
unfolding trim_ascii
proxies-AllEntries = (((refl, tt), refl), (((refl, tt), refl), tt))

two_values_left :
    through proxies claimed
    ≡ (b' ' ∷ b'6' ∷ b',' ∷ b'7' ∷ b',' ∷ b' ' ∷ b'3' ∷ []) ∷ (b'5' ∷ []) ∷ []
two_values_left = refl

resolve-entry_example :
    resolve digit (through proxies claimed) (some 9) (length proxies)
    ≡ or_else (digit (b'3' ∷ [])) (some 9)
resolve-entry_example =
    resolve-entry digit claimed true (b'3' ∷ []) ((false, b'5' ∷ []) ∷ []) (some 9)
      proxies-AllEntries
