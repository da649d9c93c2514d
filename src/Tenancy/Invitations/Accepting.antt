-- ===== src/Tenancy/Invitations/Accepting.antt =====
-- `accept` of the invitation service: what an accepted invitation was, and what accepting it writes.
use sstsaas_pv.Common.{
  ℕ, ◌==◌, ◌≡◌, ◌≢◌, refl, sym, ap, ◌∙◌, subst, find?, find?-map_if, inl, inr, Bool, true, false,
  not, ◌&&◌, ◌||◌, Option, none, some, is_none, is_some, find?-refine, Bool-cases, arith, ==_refl,
  ltb, leb, ◌<◌, ◌∷◌, All, All-map, map_if, find?-none-All, Option-cases, ==_iff,
}
use sstsaas_pv.Access.Faults.{token_invalid, ok}
use sstsaas_pv.Tenancy.Rows.{MembershipStatus, Membership, Invitation, User}
use sstsaas_pv.Tenancy.Database.{Database, Db, or_fail, with_tenant_transaction, record_event}
use sstsaas_pv.Tenancy.Database.Steps.{
  or_fail-ok, refuse_if-ok, IsReader, after_reader, after_writer, lock_organization-IsReader,
  find-IsReader, refuse-IsReader, settle-ok,
}
use sstsaas_pv.Tenancy.Invitations.{
  AcceptInvitationCommand, has_hash, is_active_member, is_consumable, accept_at, new_membership,
  is_stale, assert_user_is_not_already_a_member, assert_addressed, consume, insert_membership, join,
  accept_tx, accept_found, accept,
}

module _ (D : Database) (parse_email : ℕ → ℕ) where
  -- What the code reads and writes on the way to an answer.
  record Chain (org : ℕ) (command : AcceptInvitationCommand) (id now : ℕ) (s : Db D)
      (m : Membership) (s' : Db D) : Type 0 where
    pub i : Invitation
    pub account : User
    pub found : D.invitations.find_first (has_hash org command.token_hash) s.invitations ≡ some i
    pub holder : D.users.find_first (λ u. u.id == command.actor_user_id) s.users ≡ some account
    pub addressed : (parse_email account.email == parse_email i.email) ≡ true
    pub usable : is_stale now i ≡ false
    pub outsider :
        is_some
          (D.memberships.find_first (is_active_member org command.actor_user_id) s.memberships)
        ≡ false
    pub joined : m ≡ new_membership id org command.actor_user_id i.role_key now
    pub members : s'.memberships ≡ D.memberships.create m s.memberships
    pub letters :
        s'.invitations
        ≡ D.invitations.update_many (is_consumable org i.id now) (accept_at now) s.invitations

  -- A membership of the organisation and the user that is active and not deleted.
  abbrev pub IsJoined : ℕ → ℕ → Membership → Type 0
  IsJoined org user m =
      (m.organization_id ≡ org)
      × (m.user_id ≡ user)
      × (m.status ≡ MembershipStatus.active)
      × (m.deleted_at ≡ none)

  -- The invitation was live and addressed to the caller, who was no active member; the new
  -- membership is the caller's only active one, with the role offered; the invitation is used up.
  pub record Accepts (command : AcceptInvitationCommand) (id now : ℕ) (s : Db D) (m : Membership)
      (s' : Db D) : Type 0 where
    pub i : Invitation
    pub account : User
    pub found :
        D.invitations.find_first (λ x. x.token_hash == command.token_hash) s.invitations ≡ some i
    pub holder : D.users.find_first (λ u. u.id == command.actor_user_id) s.users ≡ some account
    pub addressed : parse_email account.email ≡ parse_email i.email
    pub unused : i.accepted_at ≡ none
    pub unrevoked : i.revoked_at ≡ none
    pub in_time : now < i.expires_at
    pub outsider :
        All
          (λ x. ¬ IsJoined i.organization_id command.actor_user_id x)
          (D.memberships.rows s.memberships)
    pub same_id : m.id ≡ id
    pub joined : IsJoined i.organization_id command.actor_user_id m
    pub role : m.role_key ≡ i.role_key
    pub members : D.memberships.rows s'.memberships ≡ m ∷ D.memberships.rows s.memberships
    -- the rows of that identifier that are live are accepted, and no other is written
    pub letters :
        D.invitations.rows s'.invitations
        ≡ map_if
            (λ x.
              (x.id == i.id
                && (x.organization_id == i.organization_id
                    && (is_none x.accepted_at && is_none x.revoked_at)))
              && ltb now x.expires_at)
            (λ x. record x { accepted_at = some now })
            (D.invitations.rows s.invitations)
    pub used :
        D.invitations.find_first (λ x. x.token_hash == command.token_hash) s'.invitations
        ≡ some (record i { accepted_at = some now })

  addressed-IsReader :
      (user : ℕ) (i : Invitation) → IsReader (assert_addressed D parse_email user i)
  unfolding assert_addressed
  addressed-IsReader user i s a s' e =
      after_reader (λ t. or_fail (D.users.find_first (λ u. u.id == user) t.users) token_invalid t) _
        s (find-IsReader (λ t. D.users.find_first (λ u. u.id == user) t.users) token_invalid) e
        λ account _ e₁. (refuse_if-ok _ _ s e₁).1

  addressed-ok :
      (user : ℕ) (i : Invitation) (s : Db D) (a : Unit {0})
      → assert_addressed D parse_email user i s ≡ ok (a, s)
      → (account : User) × (D.users.find_first (λ u. u.id == user) s.users ≡ some account)
        × ((parse_email account.email == parse_email i.email) ≡ true)
  unfolding assert_addressed
  addressed-ok user i s a e =
      after_reader (λ t. or_fail (D.users.find_first (λ u. u.id == user) t.users) token_invalid t) _
        s (find-IsReader (λ t. D.users.find_first (λ u. u.id == user) t.users) token_invalid) e
        λ account found e₁.
          (account, (or_fail-ok _ _ s found).0, not-false _ (refuse_if-ok _ _ s e₁).0)
    where
      not-false : (b : Bool) → not b ≡ false → b ≡ true
      not-false true h = refl
      not-false false h = cc

  outsider-IsReader : (org user : ℕ) → IsReader (assert_user_is_not_already_a_member D org user)
  unfolding assert_user_is_not_already_a_member
  outsider-IsReader org user s a s' e = (refuse_if-ok _ _ s e).1

  outsider-ok :
      (org user : ℕ) (s : Db D) (a : Unit {0})
      → assert_user_is_not_already_a_member D org user s ≡ ok (a, s)
      → is_some (D.memberships.find_first (is_active_member org user) s.memberships) ≡ false
  unfolding assert_user_is_not_already_a_member
  outsider-ok org user s a e = (refuse_if-ok _ _ s e).0

  consume-ok :
      (org iid now : ℕ) (s : Db D) (a : Unit {0}) (s' : Db D)
      → consume D parse_email org iid now s ≡ ok (a, s')
      → s' ≡ record s {
        invitations =
            D.invitations.update_many (is_consumable org iid now) (accept_at now) s.invitations;
      }
  unfolding consume
  consume-ok org iid now s a s' e =
      elim (Bool-cases
        (D.invitations.updated_count (is_consumable org iid now) s.invitations == 1)) [
          | inl one ↦ let f = rw one at e in cc
          | inr other ↦ cc (rw other at e)
        ]

  accept_tx-Chain :
      (org : ℕ) (command : AcceptInvitationCommand) (id now : ℕ) (s : Db D) (m : Membership)
      (s' : Db D)
      → accept_tx D parse_email org command id now s ≡ ok (m, s')
      → Chain org command id now s m s'
  unfolding accept_tx join insert_membership record_event
  accept_tx-Chain org command id now s m s' e =
      after_reader _ _ s (lock_organization-IsReader D org) e λ _ _ e₁.
        after_reader _ _ s
          (find-IsReader
            (λ t. D.invitations.find_first (has_hash org command.token_hash) t.invitations)
            token_invalid)
          e₁
          λ i p e₂. after_reader _ _ s (addressed-IsReader command.actor_user_id i) e₂ λ _ q e₃.
            after_reader _ _ s (refuse-IsReader (λ t. is_stale now i) token_invalid) e₃ λ _ u e₄.
              after_reader _ _ s (outsider-IsReader org command.actor_user_id) e₄ λ _ o e₅.
                after_writer (consume D parse_email org i.id now) _ s _ (consume-ok org i.id now s)
                  e₅
                  λ e₆.
                    let (account, holder, addressed) = addressed-ok command.actor_user_id i s _ q in
                    record {
                      i = i;
                      account = account;
                      found = (or_fail-ok _ _ s p).0;
                      holder = holder;
                      addressed = addressed;
                      usable = (refuse_if-ok _ _ s u).0;
                      outsider = outsider-ok org command.actor_user_id s _ o;
                      joined = cc;
                      members = cc;
                      letters = cc;
                    }

  accept-Chain :
      (command : AcceptInvitationCommand) (id now : ℕ) (s : Db D) (m : Membership)
      → (accept D parse_email command id now s).0 ≡ ok m
      → (i : Invitation) × (D.invitations.find_first
            (λ x. x.token_hash == command.token_hash)
            s.invitations
          ≡ some i)
        × Chain i.organization_id command id now s m (accept D parse_email command id now s).1
  unfolding accept accept_found with_tenant_transaction
  accept-Chain command id now s m e = go _ refl e
    where
      go :
          (o : Option Invitation)
          → D.invitations.find_first (λ x. x.token_hash == command.token_hash) s.invitations ≡ o
          → (accept_found D parse_email o command id now s).0 ≡ ok m
          → (i : Invitation) × (D.invitations.find_first
                (λ x. x.token_hash == command.token_hash)
                s.invitations
              ≡ some i)
            × Chain i.organization_id command id now s m
                (accept_found D parse_email o command id now s).1
      go none p q = cc
      go (some i) p q =
          (i, p, accept_tx-Chain i.organization_id command id now s m _ (settle-ok _ s q))

  -- The search by token and the search inside the organisation find the same invitation.
  same_invitation :
      (h : ℕ) (i j : Invitation) (s : Db D)
      → D.invitations.find_first (λ x. x.token_hash == h) s.invitations ≡ some i
      → D.invitations.find_first (has_hash i.organization_id h) s.invitations ≡ some j
      → j ≡ i
  same_invitation h i j s p q =
      let narrowed =
        find?-refine (λ x. x.token_hash == h) (λ x. x.organization_id == i.organization_id)
          (D.invitations.rows s.invitations) i
          (rw (D.invitations.find_first_lem (λ x. x.token_hash == h) s.invitations) at p)
          (==_refl i.organization_id) in
      let other =
        rw (D.invitations.find_first_lem (has_hash i.organization_id h) s.invitations) at q in
      cc

  stale_after : (now later : ℕ) (i : Invitation) → is_stale later (accept_at now i) ≡ true
  stale_after now later i = refl

  consumes :
      (now : ℕ) (i : Invitation)
      → is_stale now i ≡ false
      → is_consumable i.organization_id i.id now i ≡ true
  consumes now i usable =
      rw (==_refl i.id, ==_refl i.organization_id)
        (live i.accepted_at i.revoked_at i.expires_at usable)
    where
      live :
          (a r : Option ℕ) (e : ℕ)
          → (is_some a || is_some r || leb e now) ≡ false
          → ((is_none a && is_none r) && ltb now e) ≡ true
      live none none e h = ground arith
      live none (some x) e h = cc
      live (some x) r e h = cc

  accepted_row :
      (h now : ℕ) (i : Invitation) (s : Db D)
      → D.invitations.find_first (λ x. x.token_hash == h) s.invitations ≡ some i
      → is_stale now i ≡ false
      → D.invitations.find_first
          (λ x. x.token_hash == h)
          (D.invitations.update_many
            (is_consumable i.organization_id i.id now)
            (accept_at now)
            s.invitations)
        ≡ some (accept_at now i)
  accepted_row h now i s p usable =
      let q = is_consumable i.organization_id i.id now in
      let hit : q i ≡ true = consumes now i usable in
      D.invitations.find_first_lem (λ x. x.token_hash == h)
        (D.invitations.update_many q (accept_at now) s.invitations)
      ∙ ap (find? (λ x. x.token_hash == h))
          (D.invitations.rows-update_many q (accept_at now) s.invitations)
      ∙ find?-map_if (λ x. x.token_hash == h) q (accept_at now) (λ x. refl)
          (D.invitations.rows s.invitations) i
          (rw (D.invitations.find_first_lem (λ x. x.token_hash == h) s.invitations) at p)
      ∙ rw hit refl

  live_invitation :
      (now : ℕ) (i : Invitation)
      → is_stale now i ≡ false
      → (i.accepted_at ≡ none) × (i.revoked_at ≡ none) × (now < i.expires_at)
  live_invitation now i usable = parts i.accepted_at i.revoked_at i.expires_at usable
    where
      parts :
          (a r : Option ℕ) (e : ℕ)
          → (is_some a || is_some r || leb e now) ≡ false
          → (a ≡ none) × (r ≡ none) × (now < e)
      parts none none e h = (refl, refl, ground arith)
      parts none (some x) e h = cc
      parts (some x) r e h = cc

  -- Where the search for an active membership finds none, no row is one.
  no_member :
      (org user : ℕ) (s : Db D)
      → is_some (D.memberships.find_first (is_active_member org user) s.memberships) ≡ false
      → All (λ x. ¬ IsJoined org user x) (D.memberships.rows s.memberships)
  no_member org user s e =
      All-map (λ x miss h. is_joined x h miss) (D.memberships.rows s.memberships)
        (find?-none-All (is_active_member org user) (D.memberships.rows s.memberships)
          (rw (D.memberships.find_first_lem (is_active_member org user) s.memberships) at nothing))
    where
      nothing : D.memberships.find_first (is_active_member org user) s.memberships ≡ none
      nothing =
          elim (Option-cases (D.memberships.find_first (is_active_member org user) s.memberships)) [
            | inl e₁ ↦ e₁
            | inr (x, e₁) ↦ let f = rw e₁ at e in cc
          ]

      is_joined : (x : Membership) → IsJoined org user x → is_active_member org user x ≢ false
      is_joined x (o, u, a, d) miss =
          let hit : is_active_member org user x ≡ true =
            rw (o, u, a, d, ==_refl org, ==_refl user) refl in
          cc

  -- A call of `accept` that answers a membership finds an invitation by the token's hash, addressed to
  -- the caller's account, neither accepted nor revoked nor expired; the caller had no active
  -- membership of its organisation; the membership is the caller's, active, not deleted, and has the
  -- role offered; it is the one membership row added; the only invitations written are the
  -- organisation's live ones of that identifier, which are accepted, and the token's hash then finds
  -- the invitation accepted.
  pub accept-Accepts :
      (command : AcceptInvitationCommand) (id now : ℕ) (s : Db D) (m : Membership)
      → (accept D parse_email command id now s).0 ≡ ok m
      → Accepts command id now s m (accept D parse_email command id now s).1
  accept-Accepts command id now s m e =
      let (i, p, c) = accept-Chain command id now s m e in
      let this : c.i ≡ i = same_invitation command.token_hash i c.i s p c.found in
      let usable : is_stale now i ≡ false = subst (λ x. is_stale now x ≡ false) this c.usable in
      let (unused, unrevoked, in_time) = live_invitation now i usable in
      let joined : m ≡ new_membership id i.organization_id command.actor_user_id i.role_key now =
        subst (λ x. m ≡ new_membership id i.organization_id command.actor_user_id x.role_key now)
          this c.joined in
      let letters : (accept D parse_email command id now s).1.invitations
          ≡ D.invitations.update_many (is_consumable i.organization_id i.id now) (accept_at now)
              s.invitations =
        subst
          (λ x.
            (accept D parse_email command id now s).1.invitations
            ≡ D.invitations.update_many (is_consumable i.organization_id x.id now) (accept_at now)
                s.invitations)
          this c.letters in
      record {
        i = i;
        account = c.account;
        found = p;
        holder = c.holder;
        addressed =
            subst (λ x. parse_email c.account.email ≡ parse_email x.email) this
              ((==_iff (parse_email c.account.email) (parse_email c.i.email)).0 c.addressed);
        unused = unused;
        unrevoked = unrevoked;
        in_time = in_time;
        outsider = no_member i.organization_id command.actor_user_id s c.outsider;
        same_id = ap (λ x. x.id) joined;
        joined = (
          ap (λ x. x.organization_id) joined,
          ap (λ x. x.user_id) joined,
          ap (λ x. x.status) joined,
          ap (λ x. x.deleted_at) joined,
        );
        role = ap (λ x. x.role_key) joined;
        members = ap D.memberships.rows c.members ∙ D.memberships.rows-create m s.memberships;
        letters =
            ap D.invitations.rows letters
            ∙ D.invitations.rows-update_many (is_consumable i.organization_id i.id now)
                (accept_at now) s.invitations;
        used =
            ap (D.invitations.find_first (λ x. x.token_hash == command.token_hash)) letters
            ∙ accepted_row command.token_hash now i s p usable;
      }

  -- An invitation is accepted once: right after a call of `accept` that answers a membership, no
  -- call with the same token answers one, by whatever user and at whatever time.
  pub accept-once :
      (command again : AcceptInvitationCommand) (id now id' later : ℕ) (s : Db D)
      (m m' : Membership)
      → (accept D parse_email command id now s).0 ≡ ok m
      → again.token_hash ≡ command.token_hash
      → (accept D parse_email again id' later (accept D parse_email command id now s).1).0 ≢ ok m'
  accept-once command again id now id' later s m m' e same e' =
      let s₁ : Db D = (accept D parse_email command id now s).1 in
      let (i, p, first) = accept-Chain command id now s m e in
      let (j, q, second) = accept-Chain again id' later s₁ m' e' in
      let this : first.i ≡ i = same_invitation command.token_hash i first.i s p first.found in
      let that : second.i ≡ j = same_invitation again.token_hash j second.i s₁ q second.found in
      let usable : is_stale now i ≡ false = subst (λ x. is_stale now x ≡ false) this first.usable in
      let used : D.invitations.find_first (λ x. x.token_hash == command.token_hash) s₁.invitations
          ≡ some (accept_at now i) =
        ap (D.invitations.find_first (λ x. x.token_hash == command.token_hash)) first.letters
        ∙ subst
            (λ x.
              D.invitations.find_first (λ y. y.token_hash == command.token_hash)
                (D.invitations.update_many (is_consumable i.organization_id x.id now)
                  (accept_at now) s.invitations)
              ≡ some (accept_at now i))
            (sym this) (accepted_row command.token_hash now i s p usable) in
      let found : D.invitations.find_first (λ x. x.token_hash == command.token_hash) s₁.invitations
          ≡ some j =
        subst (λ n. D.invitations.find_first (λ x. x.token_hash == n) s₁.invitations ≡ some j) same
          q in
      let row : j ≡ accept_at now i = cc in
      let fresh : is_stale later (accept_at now i) ≡ false =
        subst (λ x. is_stale later x ≡ false) (that ∙ row) second.usable in
      let absurd : true ≡ false = fresh in cc
