-- ===== src/AccessControl/Members.antt =====
-- A role and the accounts of its members, against the set of its members.
use ithaca_smart_contract_an.Base.{
  ◌≤◌, ◌≡◌, true, false, ◌||◌, ◌==◌, ==_iff, Bool-cases, if◌then◌else◌, List, ◌∷◌, length, String,
  arith, refl, sym, ◌∙◌, ap, inl, inr,
}
use ithaca_smart_contract_an.Program.Errors.{ok}
use ithaca_smart_contract_an.Program.Words.{sub_u64}
use ithaca_smart_contract_an.Program.State.{Pubkey, AccessController, Role, Member}
use ithaca_smart_contract_an.Program.Runtime.{Runtime, Account, close}
use ithaca_smart_contract_an.Program.Checks.{
  check_access_controller, check_role_account, check_member,
}
use ithaca_smart_contract_an.AccessControl.Grant.{GrantRole, grant_role}
use ithaca_smart_contract_an.AccessControl.Renounce
use ithaca_smart_contract_an.AccessControl.Renounce.{RenounceRole, renounce_role}
use ithaca_smart_contract_an.AccessControl.Check.{CheckRole}
use ithaca_smart_contract_an.AccessControl.Sets.{
  has, IsDistinct, without, has-without, without-IsDistinct, length-without,
}
use ithaca_smart_contract_an.AccessControl.Grants.{members, Granted, grant_role-Granted}
use ithaca_smart_contract_an.AccessControl.Renounces.{Renounced, renounce_role-Renounced}

-- The account of a role, and the member account of each key.
pub record RoleAccounts : Type 0 where
  pub role : Account Role
  pub member : Pubkey → Account Member

module _ (rt : Runtime) (ac : Account AccessController) (name : String) where
  abbrev pub granting : RoleAccounts → Pubkey → Pubkey → GrantRole
  granting w admin new = record {
    admin = admin;
    access_controller = ac;
    role = w.role;
    member = w.member new;
  }

  abbrev pub renouncing : RoleAccounts → Pubkey → Pubkey → RenounceRole
  renouncing w admin who = record {
    admin = admin;
    access_controller = ac;
    role = w.role;
    member = w.member who;
  }

  abbrev pub asking : RoleAccounts → Pubkey → Pubkey → Pubkey → CheckRole
  asking w caller who system_program = record {
    caller = caller;
    access_controller = ac;
    role = w.role;
    member = w.member who;
    system_program = system_program;
  }

  -- A grant or a renouncement that succeeds, whoever asks for it.
  pub data Step (w w' : RoleAccounts) : Type 0 where
    grants :
        (admin new : Pubkey) (g : GrantRole)
        → grant_role rt (granting w admin new) name new ≡ ok g
        → w'.role ≡ g.role
        → ((k : Pubkey) → w'.member k ≡ (if k == new then g.member else w.member k))
        → Step w w'
    renounces :
        (admin who : Pubkey) (r : RenounceRole)
        → renounce_role rt (renouncing w admin who) name who ≡ ok r
        → w'.role ≡ r.role
        → ((k : Pubkey) → w'.member k ≡ (if k == who then r.member else w.member k))
        → Step w w'

  -- The accounts stand for a set of members: exactly its keys have a member account, which passes
  -- the check of it, as the role's account does; and the role counts them.
  pub record Represents (w : RoleAccounts) (ks : List Pubkey) : Type 0 where
    pub distinct : IsDistinct ks
    pub exactly : (k : Pubkey) → (w.member k).exists ≡ has ks k
    pub counted : members w.role ≡ length ks
    pub role_account : (k : Pubkey) → has ks k ≡ true → check_role_account rt ac name w.role ≡ ok tt
    pub member_account :
        (k : Pubkey) → has ks k ≡ true → check_member rt w.role k (w.member k) ≡ ok tt

  check_member-address :
      (role role' : Account Role) (k : Pubkey) (m : Account Member)
      → role'.address ≡ role.address
      → check_member rt role k m ≡ ok tt
      → check_member rt role' k m ≡ ok tt
  unfolding check_member
  check_member-address role role' k m e h = rw e h

  grants-Represents :
      (w w' : RoleAccounts) (ks : List Pubkey) (admin new : Pubkey) (g : GrantRole)
      → Granted rt (granting w admin new) g name new
      → w'.role ≡ g.role
      → ((k : Pubkey) → w'.member k ≡ (if k == new then g.member else w.member k))
      → Represents w ks
      → (has ks new ≡ false) × Represents w' (new ∷ ks)
  grants-Represents w w' ks admin new g d er em s =
      let fresh : has ks new ≡ false = sym (s.exactly new) ∙ d.fresh in
      (
        fresh,
        record {
          distinct = (fresh, s.distinct);
          exactly = λ k. exists k;
          counted = rw er (ground (arith, d.counted, d.role_exists, s.counted));
          role_account = λ k h. rw (er, ← d.same_controller) d.role_account;
          member_account = λ k h. account k h;
        },
      )
    where
      exists : (k : Pubkey) → (w'.member k).exists ≡ (new == k || has ks k)
      exists k = elim (Bool-cases (k == new)) [
        | inl e ↦
            let same = (==_iff k new).0 e in
            rw (em k, e, same, (==_iff new new).1 refl) d.member_exists
        | inr e ↦ rw (em k, e) (ground (arith, s.exactly k, ==_iff new k, ==_iff k new))
      ]

      account :
          (k : Pubkey)
          → (new == k || has ks k) ≡ true
          → check_member rt w'.role k (w'.member k) ≡ ok tt
      account k h = elim (Bool-cases (k == new)) [
        | inl e ↦ rw (em k, e, er, (==_iff k new).0 e) d.member_account
        | inr e ↦
            rw (em k, e)
              (check_member-address w.role w'.role k (w.member k)
                (ap (λ x. x.address) er ∙ d.same_role)
                (s.member_account k (ground (arith, ==_iff new k, ==_iff k new))))
      ]

  renounced-role :
      (w : RoleAccounts) (admin who : Pubkey) (r : RenounceRole)
      → renounce_role rt (renouncing w admin who) name who ≡ ok r
      → (check_role_account rt ac name r.role ≡ ok tt)
        × (r.role.address ≡ w.role.address)
        × (r.role.exists ≡ true)
        × (w.role.exists ≡ true)
  unfolding renounce_role Renounce.try_accounts Renounce.handler sub_u64 check_access_controller
      check_role_account check_member
  renounced-role w admin who r h = ground arith

  renounces-Represents :
      (w w' : RoleAccounts) (ks : List Pubkey) (admin who : Pubkey) (r : RenounceRole)
      → renounce_role rt (renouncing w admin who) name who ≡ ok r
      → w'.role ≡ r.role
      → ((k : Pubkey) → w'.member k ≡ (if k == who then r.member else w.member k))
      → Represents w ks
      → (has ks who ≡ true) × (2 ≤ length ks) × Represents w' (without ks who)
  renounces-Represents w w' ks admin who r h er em s =
      let d : Renounced rt (renouncing w admin who) r name who =
        renounce_role-Renounced rt (renouncing w admin who) r name who h in
      let (checked, address, there, was_there) = renounced-role w admin who r h in
      let held : has ks who ≡ true = sym (s.exactly who) ∙ d.was_member in
      let kept = λ (k : Pubkey). has-without ks who k s.distinct in
      (
        held,
        ground (arith, d.some_left, d.not_last, s.counted, was_there),
        record {
          distinct = without-IsDistinct ks who s.distinct;
          exactly = λ k. exists k d.closed;
          counted = rw er (
              ground (arith, d.some_left, there, was_there, s.counted, length-without ks who held));
          role_account = λ k g. rw er checked;
          member_account = λ k g. account k g address;
        },
      )
    where
      exists :
          (k : Pubkey)
          → r.member ≡ close (w.member who)
          → (w'.member k).exists ≡ has (without ks who) k
      exists k closed = elim (Bool-cases (k == who)) [
        | inl e ↦ rw (em k, e, closed, has-without ks who k s.distinct, e) refl
        | inr e ↦ rw (em k, e, has-without ks who k s.distinct, e) (s.exactly k)
      ]

      account :
          (k : Pubkey)
          → has (without ks who) k ≡ true
          → r.role.address ≡ w.role.address
          → check_member rt w'.role k (w'.member k) ≡ ok tt
      account k g address = elim (Bool-cases (k == who)) [
        | inl e ↦ absurd (ground (arith, has-without ks who k s.distinct))
        | inr e ↦
            rw (em k, e)
              (check_member-address w.role w'.role k (w.member k) (ap (λ x. x.address) er ∙ address)
                (s.member_account k (ground (arith, has-without ks who k s.distinct))))
      ]

  -- What the two instructions promise of the set: a grant is by the admin and adds the key that it
  -- names, which was not in it; a renouncement is by the admin and takes out the key that it names,
  -- which was in it and was not the last.
  abbrev pub Follows : {w w' : RoleAccounts} → Step w w' → List Pubkey → List Pubkey → Type 0
  Follows (grants admin new g h er em) ks ks' =
      (admin ≡ ac.inner.admin) × (has ks new ≡ false) × (ks' ≡ new ∷ ks)
  Follows (renounces admin who r h er em) ks ks' =
      (admin ≡ ac.inner.admin) × (has ks who ≡ true) × (2 ≤ length ks) × (ks' ≡ without ks who)

  -- A role and its member accounts implement a set of keys: from accounts that stand for a set, a
  -- grant, which only the admin of the controller can make, adds exactly the key that it names,
  -- which was not in the set; a renouncement, which only the admin can make, takes out exactly the
  -- key that it names, which was in the set and was not the last; and the accounts stand for the new
  -- set.
  pub Step-Represents :
      {w w' : RoleAccounts} (ks : List Pubkey) (st : Step w w')
      → Represents w ks
      → (ks' : List Pubkey) × Follows st ks ks' × Represents w' ks'
  Step-Represents {w} {w'} ks (grants admin new g h er em) s =
      let d = grant_role-Granted rt (granting w admin new) g name new h in
      let (fresh, after) = grants-Represents w w' ks admin new g d er em s in
      (new ∷ ks, (d.by_admin, fresh, refl), after)
  Step-Represents {w} {w'} ks (renounces admin who r h er em) s =
      let d = renounce_role-Renounced rt (renouncing w admin who) r name who h in
      let (held, others, after) = renounces-Represents w w' ks admin who r h er em s in
      (without ks who, (d.by_admin, held, others, refl), after)
