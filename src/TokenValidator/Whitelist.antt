-- ===== src/TokenValidator/Whitelist.antt =====
-- The accounts of the whitelisted tokens of one validator, against the set of their mints.
use ithaca_smart_contract_an.Base.{
  ℕ, ◌≡◌, true, false, ◌==◌, ==_iff, Bool-cases, if◌then◌else◌, List, ◌∷◌, arith, refl, sym, ◌∙◌,
  ap, inl, inr,
}
use ithaca_smart_contract_an.Program.Errors.{ok}
use ithaca_smart_contract_an.Program.State.{Pubkey, TokenValidator, WhitelistedToken, Mint}
use ithaca_smart_contract_an.Program.Runtime.{Runtime, Account, close}
use ithaca_smart_contract_an.Program.Checks.{check_whitelisted_token}
use ithaca_smart_contract_an.TokenValidator.Add.{AddTokenToWhitelist, add_token_to_whitelist}
use ithaca_smart_contract_an.TokenValidator.Remove
use ithaca_smart_contract_an.TokenValidator.Remove.{
  RemoveTokenFromWhitelist, remove_token_from_whitelist,
}
use ithaca_smart_contract_an.TokenValidator.Listing.{add_token_to_whitelist-Listed}
use ithaca_smart_contract_an.AccessControl.Sets.{
  has, IsDistinct, without, has-without, without-IsDistinct,
}

-- The account of each mint's listing.
abbrev pub Listings : Type 0
Listings = Pubkey → Account WhitelistedToken

module _ (rt : Runtime) (tv : Account TokenValidator) where
  -- An addition or a removal on this validator that succeeds.
  pub data Step (w w' : Listings) : Type 0 where
    adds :
        (a a' : AddTokenToWhitelist) (token_precision : ℕ)
        → add_token_to_whitelist rt a token_precision ≡ ok a'
        → a.token_validator ≡ tv
        → a.whitelisted_token ≡ w a.new_token_to_whitelist.address
        → ((k : Pubkey)
            → w' k ≡ (if k == a.new_token_to_whitelist.address then a'.whitelisted_token else w k))
        → Step w w'
    removes :
        (a a' : RemoveTokenFromWhitelist)
        → remove_token_from_whitelist rt a ≡ ok a'
        → a.whitelisted_token ≡ w a.token_to_remove.address
        → ((k : Pubkey)
            → w' k ≡ (if k == a.token_to_remove.address then a'.whitelisted_token else w k))
        → Step w w'

  -- The listings stand for a set of mints: exactly its mints have one, which names its mint, and
  -- passes the check of it in a context that is given the token.
  pub record Represents (w : Listings) (ks : List Pubkey) : Type 0 where
    pub distinct : IsDistinct ks
    pub exactly : (k : Pubkey) → (w k).exists ≡ has ks k
    pub named : (k : Pubkey) → has ks k ≡ true → (w k).inner.token_mint ≡ k
    pub checked :
        (token : Account Mint)
        → has ks token.address ≡ true
        → check_whitelisted_token rt tv token (w token.address) ≡ ok tt

  check-address :
      (token token' : Account Mint) (w : Account WhitelistedToken)
      → token.address ≡ token'.address
      → check_whitelisted_token rt tv token w ≡ ok tt
      → check_whitelisted_token rt tv token' w ≡ ok tt
  unfolding check_whitelisted_token
  check-address token token' w e h = rw (← e) h

  removed :
      (a a' : RemoveTokenFromWhitelist)
      → remove_token_from_whitelist rt a ≡ ok a'
      → (a'.whitelisted_token ≡ close a.whitelisted_token) × (a.whitelisted_token.exists ≡ true)
  unfolding remove_token_from_whitelist Remove.try_accounts check_whitelisted_token
  removed a a' h = ground arith

  adds-Represents :
      (w w' : Listings) (ks : List Pubkey) (token : Account Mint) (new : Account WhitelistedToken)
      → (w token.address).exists ≡ false
      → new.exists ≡ true
      → new.inner.token_mint ≡ token.address
      → check_whitelisted_token rt tv token new ≡ ok tt
      → ((k : Pubkey) → w' k ≡ (if k == token.address then new else w k))
      → Represents w ks
      → (has ks token.address ≡ false) × Represents w' (token.address ∷ ks)
  adds-Represents w w' ks token new fresh there mint checked e s =
      let not_yet : has ks token.address ≡ false = sym (s.exactly token.address) ∙ fresh in
      (
        not_yet,
        record {
          distinct = (not_yet, s.distinct);
          exactly = λ k. elim (Bool-cases (k == token.address)) [
            | inl t ↦
                rw (e k, t) (ground (arith, there, ==_iff k token.address, ==_iff token.address k))
            | inr f ↦
                rw (e k, f)
                  (ground (arith, s.exactly k, ==_iff token.address k, ==_iff k token.address))
          ];
          named = λ k g. elim (Bool-cases (k == token.address)) [
            | inl t ↦ rw (e k, t) (mint ∙ sym ((==_iff k token.address).0 t))
            | inr f ↦
                rw (e k, f)
                  (s.named k (ground (arith, ==_iff token.address k, ==_iff k token.address)))
          ];
          checked = λ other g. elim (Bool-cases (other.address == token.address)) [
            | inl t ↦
                rw (e other.address, t)
                  (check-address token other new (sym ((==_iff other.address token.address).0 t))
                    checked)
            | inr f ↦
                rw (e other.address, f)
                  (s.checked other (
                    ground (
                      arith,
                      ==_iff token.address other.address,
                      ==_iff other.address token.address,
                    )))
          ];
        },
      )

  removes-Represents :
      (w w' : Listings) (ks : List Pubkey) (gone : Pubkey) (left : Account WhitelistedToken)
      → (w gone).exists ≡ true
      → left.exists ≡ false
      → ((k : Pubkey) → w' k ≡ (if k == gone then left else w k))
      → Represents w ks
      → (has ks gone ≡ true) × Represents w' (without ks gone)
  removes-Represents w w' ks gone left there closed e s = (
    sym (s.exactly gone) ∙ there,
    record {
      distinct = without-IsDistinct ks gone s.distinct;
      exactly = λ k. elim (Bool-cases (k == gone)) [
        | inl t ↦ rw (e k, t, has-without ks gone k s.distinct, t) closed
        | inr f ↦ rw (e k, f, has-without ks gone k s.distinct, f) (s.exactly k)
      ];
      named = λ k g. elim (Bool-cases (k == gone)) [
        | inl t ↦ absurd (ground (arith, has-without ks gone k s.distinct))
        | inr f ↦ rw (e k, f) (s.named k (ground (arith, has-without ks gone k s.distinct)))
      ];
      checked = λ token g. elim (Bool-cases (token.address == gone)) [
        | inl t ↦ absurd (ground (arith, has-without ks gone token.address s.distinct))
        | inr f ↦
            rw (e token.address, f)
              (s.checked token (ground (arith, has-without ks gone token.address s.distinct)))
      ];
    },
  )

  -- What the two instructions promise of the set: an addition puts on the mint of its token, which
  -- was not in it; a removal takes off the mint of its token, which was.
  abbrev pub Follows : {w w' : Listings} → Step w w' → List Pubkey → List Pubkey → Type 0
  Follows (adds a a' token_precision h same place e) ks ks' =
      (has ks a.new_token_to_whitelist.address ≡ false)
      × (ks' ≡ a.new_token_to_whitelist.address ∷ ks)
  Follows (removes a a' h place e) ks ks' =
      (has ks a.token_to_remove.address ≡ true) × (ks' ≡ without ks a.token_to_remove.address)

  -- The listings of a validator implement a set of mints: from listings that stand for a set, an
  -- addition puts on exactly the mint of the token that it is given, which was not in the set; a
  -- removal takes off exactly the mint of the token that it is given, which was in the set; and the
  -- listings stand for the new set.
  pub listings-Represents :
      {w w' : Listings} (ks : List Pubkey) (st : Step w w')
      → Represents w ks
      → (ks' : List Pubkey) × Follows st ks ks' × Represents w' ks'
  listings-Represents {w} {w'} ks (adds a a' p h same place e) s =
      let d = add_token_to_whitelist-Listed rt a a' p h in
      let (fresh, after) =
        adds-Represents w w' ks a.new_token_to_whitelist a'.whitelisted_token (rw (← place) d.fresh)
          d.there d.mint (rw same at (d.checked)) e s in
      (a.new_token_to_whitelist.address ∷ ks, (fresh, refl), after)
  listings-Represents {w} {w'} ks (removes a a' h place e) s =
      let (left, there) = removed a a' h in
      let (held, after) =
        removes-Represents w w' ks a.token_to_remove.address a'.whitelisted_token
          (rw (← place) there) (ap (λ x. x.exists) left) e s in
      (without ks a.token_to_remove.address, (held, refl), after)
