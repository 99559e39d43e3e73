-- ===== src/AccessControl/Sets.antt =====
-- Sets of keys: what a role promises of its members.
use ithaca_smart_contract_an.Base.{
  ◌+◌, ◌≡◌, Bool, true, false, ◌||◌, ◌==◌, ==_iff, if◌then◌else◌, List, [], ◌∷◌, length, arith,
}
use ithaca_smart_contract_an.Program.State.{Pubkey}

-- A set of keys, as a list.
abbrev pub has : List Pubkey → Pubkey → Bool
has [] k = false
has (j ∷ js) k = j == k || has js k

abbrev pub IsDistinct : List Pubkey → Type 0
IsDistinct [] = Unit
IsDistinct (j ∷ js) = (has js j ≡ false) × IsDistinct js

abbrev pub without : List Pubkey → Pubkey → List Pubkey
without [] k = []
without (j ∷ js) k = if j == k then js else j ∷ without js k

pub has-without :
    (ks : List Pubkey) (k j : Pubkey)
    → IsDistinct ks
    → has (without ks k) j ≡ (if j == k then false else has ks j)
has-without [] k j d = ground arith
has-without (i ∷ ks) k j d =
    ground (arith, has-without ks k j d.1, ==_iff i k, ==_iff i j, ==_iff j k)

pub without-IsDistinct : (ks : List Pubkey) (k : Pubkey) → IsDistinct ks → IsDistinct (without ks k)
without-IsDistinct [] k d = tt
without-IsDistinct (i ∷ ks) k d =
    ground (arith, without-IsDistinct ks k d.1, has-without ks k i d.1, d.0)

pub length-without :
    (ks : List Pubkey) (k : Pubkey) → has ks k ≡ true → length (without ks k) + 1 ≡ length ks
length-without [] k h = cc
length-without (i ∷ ks) k h = ground (arith, length-without ks k)
