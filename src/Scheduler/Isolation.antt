-- ===== src/Scheduler/Isolation.antt =====
-- Whose credential a request may get: what `SelectConstrainedForOrganization` selects is an eligible
-- candidate, so no organization is served with another one's credential.
use model_dock.Base.{
  ◌≡◌, refl, sym, ap, ◌∙◌, subst, ◌⊎◌, inl, inr, Bool, true, false, ◌||◌, Option, none, some, List,
  [], ◌∷◌, arith, In,
}
use model_dock.Base.Int.{ℤ}
use model_dock.Text.{Text, text_eq, text_eq→eq}
use model_dock.Scheduler.{
  Credential, CredentialConstraints, credential_owner_platform, credential_owner_customer,
  is_customer, is_platform, points_to, points_elsewhere, blocks_shared, any_blocks_shared, is_false,
  block_shared, is_eligible,
}
use model_dock.Scheduler.Counters.{Counter}
use model_dock.Scheduler.Select.{Ranked, Selection, selected, rank, select_constrained}
use model_dock.Scheduler.Selected.{Legitimate, LegitimateResult, select_constrained-Legitimate}

-- Whom a selected credential belongs to.
pub record MayServe (organization : Text) (c : Credential) : Type 0 where
  pub limited_to : (c.organization_id ≡ none) ⊎ (c.organization_id ≡ some organization)
  pub owned_by : is_customer c ≡ true → c.owner_organization_id ≡ some organization

points_elsewhere_lem :
    (o : Option Text) (t : Text) → points_elsewhere o t ≡ false → (o ≡ none) ⊎ (o ≡ some t)
points_elsewhere_lem none t h = inl refl
points_elsewhere_lem (some a) t h = inr (ap some (text_eq→eq a t (ground arith)))

points_to_lem : (o : Option Text) (t : Text) → points_to o t ≡ true → o ≡ some t
points_to_lem none t h = absurd (ground arith)
points_to_lem (some a) t h = ap some (text_eq→eq a t h)

is_eligible-MayServe :
    (constraints : CredentialConstraints) (organization : Text) (blocked : Bool) (c : Credential)
    → is_eligible constraints organization blocked c ≡ true
    → MayServe organization c
unfolding is_eligible
is_eligible-MayServe constraints organization blocked c h = record {
  limited_to = points_elsewhere_lem c.organization_id organization (ground arith);
  owned_by = λ customer. points_to_lem c.owner_organization_id organization (ground arith);
}

is_eligible-not_blocked :
    (constraints : CredentialConstraints) (organization : Text) (c : Credential)
    → is_eligible constraints organization true c ≡ true
    → is_platform c ≡ false
unfolding is_eligible
is_eligible-not_blocked constraints organization c h = ground arith

any_blocks_shared-In :
    (constraints : CredentialConstraints) (organization : Text) (c : Credential)
    (cs : List Credential)
    → In c cs
    → blocks_shared constraints organization c ≡ true
    → any_blocks_shared constraints organization cs ≡ true
unfolding any_blocks_shared
any_blocks_shared-In constraints organization c (x ∷ cs) (inl e) h =
    let same : blocks_shared constraints organization x ≡ true = rw (← e) h in ground arith
any_blocks_shared-In constraints organization c (x ∷ cs) (inr i) h =
    let ih = any_blocks_shared-In constraints organization c cs i h in ground arith
any_blocks_shared-In constraints organization c [] i h = absurd i

block_shared_lem :
    (constraints : CredentialConstraints) (organization : Text) (candidates : List Credential)
    → (constraints.use_shared_capacity ≡ some false)
      ⊎ ((c : Credential) × In c candidates × (blocks_shared constraints organization c ≡ true))
    → block_shared constraints organization candidates ≡ true
unfolding block_shared
block_shared_lem constraints organization candidates (inl e) =
    ap (λ o. is_false o || any_blocks_shared constraints organization candidates) e
block_shared_lem constraints organization candidates (inr (c, i, b)) =
    let any = any_blocks_shared-In constraints organization c candidates i b in ground arith

-- The credential that is selected differs from its candidate in computed fields only.
module _ (c : Credential) (r : Ranked) (first last : ℤ) (d : Credential) (e : r ≡ rank c first)
    (e' : d ≡ record r.credential { active_requests = last }) where
  same_organization : d.organization_id ≡ c.organization_id
  unfolding rank
  same_organization = ap (λ x. x.organization_id) e' ∙ ap (λ x. x.credential.organization_id) e

  same_owner : d.owner_organization_id ≡ c.owner_organization_id
  unfolding rank
  same_owner = ap (λ x. x.owner_organization_id) e' ∙ ap (λ x. x.credential.owner_organization_id) e

  same_kind : d.credential_owner ≡ c.credential_owner
  unfolding rank
  same_kind = ap (λ x. x.credential_owner) e' ∙ ap (λ x. x.credential.credential_owner) e

  MayServe-same : (organization : Text) → MayServe organization c → MayServe organization d
  MayServe-same organization m = record {
    limited_to = rw same_organization m.limited_to;
    owned_by = λ customer.
        same_owner
        ∙ m.owned_by (ap (λ k. text_eq k credential_owner_customer) (sym same_kind) ∙ customer);
  }

  is_platform-same : is_platform c ≡ false → is_platform d ≡ false
  is_platform-same h = ap (λ k. text_eq k credential_owner_platform) same_kind ∙ h

module _ {S : Type 0} (counter : Counter S) (s : S) (constraints : CredentialConstraints)
    (organization : Text) (group requested : Text) (candidates : List Credential) (sel : Selection)
    (h : (select_constrained counter s group requested constraints organization (some candidates)).0
      ≡ selected sel) where
  legitimate : Legitimate counter s constraints organization candidates sel
  legitimate =
      subst (LegitimateResult counter s constraints organization candidates) h (
        select_constrained-Legitimate counter s constraints organization group requested candidates)

  -- A credential that is selected for an organization is limited to no organization or to this one,
  -- and if it is a customer's own, this organization owns it.
  pub select_constrained-MayServe : MayServe organization sel.credential
  select_constrained-MayServe =
      let l = legitimate in
      MayServe-same l.fits.candidate l.origin l.fits.active l.active sel.credential l.fits.ranked
        l.made organization
        (is_eligible-MayServe constraints organization _ l.fits.candidate l.fits.eligible)

  -- If the request forbids the shared capacity, or one of the organization's own credentials
  -- among the candidates does, then no credential of the platform is selected.
  pub select_constrained-not_platform :
      (constraints.use_shared_capacity ≡ some false)
        ⊎ ((c : Credential) × In c candidates × (blocks_shared constraints organization c ≡ true))
      → is_platform sel.credential ≡ false
  select_constrained-not_platform why =
      let l = legitimate in
      let blocked = block_shared_lem constraints organization candidates why in
      is_platform-same l.fits.candidate l.origin l.fits.active l.active sel.credential l.fits.ranked
        l.made
        (is_eligible-not_blocked constraints organization l.fits.candidate (
          subst (λ b. is_eligible constraints organization b l.fits.candidate ≡ true) blocked
            l.fits.eligible))
