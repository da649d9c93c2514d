-- ===== src/Tenancy/Memberships/Calls.antt =====
-- Sequences of calls of the membership service, and what holds after all of them.
use sstsaas_pv.Common.{
  ℕ, ◌<◌, ◌≡◌, refl, ap, sym, subst, inl, inr, List, [], ◌∷◌, true, arith, count_if, Distinct,
  map_if-Distinct,
}
use sstsaas_pv.Access.Grant.{TenantContext}
use sstsaas_pv.Tenancy.Rows.{Membership, is_owner}
use sstsaas_pv.Tenancy.Database.{Database, Db}
use sstsaas_pv.Tenancy.Memberships.{
  UpdateMembershipRoleCommand, RemoveMembershipCommand, owns, set_role, mark_removed, update_role,
  remove,
}
use sstsaas_pv.Tenancy.Memberships.Decisions.{
  Updates-rows, Removes-rows, update_role-cases, remove-cases,
}
use sstsaas_pv.Tenancy.Memberships.Owners.{HasOwner, admitted-keeps_owner}

-- A request of a member: the context of its session, the organisation and membership of its path.
pub data Call : Type 0 where
  updates : TenantContext → ℕ → ℕ → UpdateMembershipRoleCommand → ℕ → Call
  removes : TenantContext → ℕ → ℕ → RemoveMembershipCommand → ℕ → ℕ → Call

module _ (D : Database) where
  pub step : Call → Db D → Db D
  step (updates ctx path mid command now) s = (update_role D ctx path mid command now s).1
  step (removes ctx path mid command removed_at revoked_at) s =
      (remove D ctx path mid command removed_at revoked_at s).1

  pub run : List Call → Db D → Db D
  run [] s = s
  run (c ∷ cs) s = run cs (step c s)

  -- No two membership rows share an identifier.
  abbrev pub IsKeyed : Db D → Type 0
  IsKeyed s = Distinct (λ m. m.id) (D.memberships.rows s.memberships)

  step-IsKeyed : (c : Call) (s : Db D) → IsKeyed s → IsKeyed (step c s)
  unfolding step
  step-IsKeyed (updates ctx path mid command now) s d =
      elim (update_role-cases D ctx path mid command now s) [
        | inl (_, same) ↦ subst IsKeyed (sym (ap (λ r. r.1) same)) d
        | inr done ↦
            subst (Distinct (λ m. m.id)) (sym (Updates-rows D ctx mid command now s _ done))
              (map_if-Distinct (λ m. m.id) _ (set_role command.role_key) (λ m. refl) _ d)
      ]
  step-IsKeyed (removes ctx path mid command removed_at revoked_at) s d =
      elim (remove-cases D ctx path mid command removed_at revoked_at s) [
        | inl (_, same) ↦ subst IsKeyed (sym (ap (λ r. r.1) same)) d
        | inr (user, _, done) ↦
            subst (Distinct (λ m. m.id))
              (sym (Removes-rows D ctx mid command removed_at revoked_at s user _ done))
              (map_if-Distinct (λ m. m.id) _ (mark_removed removed_at) (λ m. refl) _ d)
      ]

  after_update :
      (org : ℕ) (command : UpdateMembershipRoleCommand) (m : Membership)
      → is_owner org m ≡ true
      → owns m.status command.role_key ≡ true
      → is_owner org (set_role command.role_key m) ≡ true
  after_update org command m before after = ground arith

  step-HasOwner :
      (c : Call) (s : Db D) → IsKeyed s → (org : ℕ) → HasOwner D org s → HasOwner D org (step c s)
  unfolding step
  step-HasOwner (updates ctx path mid command now) s d org h =
      elim (update_role-cases D ctx path mid command now s) [
        | inl (_, same) ↦ subst (HasOwner D org) (sym (ap (λ r. r.1) same)) h
        | inr done ↦
            subst (λ ms. 0 < count_if (is_owner org) ms)
              (sym (Updates-rows D ctx mid command now s _ done))
              (admitted-keeps_owner D ctx mid _ _ (set_role command.role_key) s (λ m. refl)
                (after_update ctx.organization_id command) d done.0 org h)
      ]
  step-HasOwner (removes ctx path mid command removed_at revoked_at) s d org h =
      elim (remove-cases D ctx path mid command removed_at revoked_at s) [
        | inl (_, same) ↦ subst (HasOwner D org) (sym (ap (λ r. r.1) same)) h
        | inr (user, _, done) ↦
            subst (λ ms. 0 < count_if (is_owner org) ms)
              (sym (Removes-rows D ctx mid command removed_at revoked_at s user _ done))
              (admitted-keeps_owner D ctx mid _ _ (mark_removed removed_at) s (λ m. refl)
                (λ m owned impossible. cc) d done.0 org h)
      ]

  -- Where membership identifiers are unique, an organisation that has an owner (a row that is
  -- active, not deleted, with the owner role) still has one after any sequence of role changes and
  -- removals, by whoever and whether they succeed or fail.
  pub run-HasOwner :
      (cs : List Call) (s : Db D)
      → IsKeyed s
      → (org : ℕ) → HasOwner D org s
      → HasOwner D org (run cs s)
  unfolding run
  run-HasOwner [] s d org h = h
  run-HasOwner (c ∷ cs) s d org h =
      run-HasOwner cs (step c s) (step-IsKeyed c s d) org (step-HasOwner c s d org h)
