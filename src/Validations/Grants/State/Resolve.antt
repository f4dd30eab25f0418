-- ===== src/Validations/Grants/State/Resolve.antt =====
-- When `resolve` answers present, and when it answers absent.
use dbsgomysql.Prelude.{
  Any, Bool, Bool-cases, List, Option-cases, [], any, arith, false, if◌then◌else◌, inl, inr, none,
  refl, some, sym, true, ◌&&◌, ◌||◌, ◌↔◌, ◌∙◌, ◌∷◌, ◌≡◌, ◌≢◌, ◌⊎◌,
}
use dbsgomysql.Validations.Grants.Types.{
  opaque, pinned, GrantSources, has_sources, GrantState, unknown, present, absent, is_present,
  is_unconfirmed, Privilege, select, valid_privilege, Grants, global_at, schema_at,
}
use dbsgomysql.Validations.Grants.State.{
  state_for_sources, broad_visibility, scan_specific, conclude, resolve_global, resolve, is_pinned,
  mysql_schema_name,
}

-- The session is one connection or a pool, and not a wrapper.
abbrev pub IsDirect : Grants → Type 0
IsDirect g = g.affinity ≢ opaque

abbrev pub FromAccount : GrantSources → Type 0
FromAccount s = s.account ≡ true

abbrev pub IsUngranted : GrantSources → Type 0
IsUngranted s = has_sources s ≡ false

-- The account sees the privilege rows of other accounts.
abbrev pub IsBroad : Grants → Type 0
IsBroad g =
    FromAccount (schema_at g mysql_schema_name select)
    ⊎ ((g.partial_revokes ≡ false) × FromAccount (global_at g select))

state_for_sources-present :
    (g : Grants) (s : GrantSources)
    → (state_for_sources g s ≡ present) ↔ (IsDirect g × FromAccount s)
unfolding state_for_sources
state_for_sources-present g s = ground arith

-- A state for sources is present, unconfirmed if there are any sources, or else absent.
state_for_sources-unconfirmed :
    (g : Grants) (s : GrantSources)
    → is_present (state_for_sources g s) ≡ false
    → is_unconfirmed (state_for_sources g s) ≡ has_sources s
unfolding state_for_sources
state_for_sources-unconfirmed g s = ground arith

is_present_iff : (s : GrantState) → (is_present s ≡ true) ↔ (s ≡ present)
is_present_iff s = ground arith

-- The specific grants prove the privilege exactly if one of them is the account's own.
scan-none :
    (g : Grants) (found : Bool) (specific : List GrantSources)
    → (scan_specific g found specific ≡ none) ↔ (IsDirect g × Any FromAccount specific)
unfolding scan_specific
scan-none g found [] = (λ h. absurd (ground arith), λ (_, h). absurd h)
scan-none g found (s ∷ rest) = elim (Bool-cases (is_present (state_for_sources g s))) [
  | inl p ↦
      let (d, a) = (state_for_sources-present g s).0 ((is_present_iff _).0 p) in
      rw p (λ _. (d, inl a), λ _. refl)
  | inr n ↦ rw n (
    λ h.
        let (d, a) =
          (scan-none g (if is_unconfirmed (state_for_sources g s) then true else found) rest).0 h in
        (d, inr a),
    λ (d, a). elim a [
      | inl own ↦ absurd (ground (arith, (state_for_sources-present g s).1 (d, own)))
      | inr later ↦
          (scan-none g (if is_unconfirmed (state_for_sources g s) then true else found) rest).1
            (d, later)
    ],
  )
]

-- Otherwise the flag says whether there are sources at all.
scan-some :
    (g : Grants) (found : Bool) (specific : List GrantSources) {flag : Bool}
    → scan_specific g found specific ≡ some flag
    → flag ≡ (found || any has_sources specific)
unfolding scan_specific
scan-some g found [] h = ground arith
scan-some g found (s ∷ rest) {flag} h = elim (Bool-cases (is_present (state_for_sources g s))) [
  | inl p ↦ absurd (ground arith)
  | inr n ↦ ground (
    arith,
    scan-some g (if is_unconfirmed (state_for_sources g s) then true else found) rest {flag = flag},
    state_for_sources-unconfirmed g s,
  )
]

conclude-absent :
    (g : Grants) (found : Bool)
    → (conclude g found ≡ absent)
      ↔ ((found ≡ false) × (g.role_grantees ≡ []) × (g.affinity ≡ pinned) × IsBroad g)
unfolding conclude broad_visibility is_pinned
conclude-absent g found = ground arith

conclude-ne-present : (g : Grants) (found : Bool) → conclude g found ≢ present
unfolding conclude
conclude-ne-present g found = ground arith

ungranted :
    (specific : List GrantSources) → any has_sources specific ≡ false → ¬ Any FromAccount specific
ungranted [] h a = a
ungranted (s ∷ rest) h (inl own) = ground arith
ungranted (s ∷ rest) h (inr later) = ungranted rest (ground arith) later

module _ (g : Grants) (priv : Privilege) (specific : List GrantSources)
    (global : GrantSources) where
  pub record Established : Type 0 where
    pub valid : valid_privilege priv ≡ true
    pub populated : g.populated ≡ true
    pub direct : IsDirect g
    pub granted : Any FromAccount specific ⊎ ((g.partial_revokes ≡ false) × FromAccount global)

  pub record RuledOut : Type 0 where
    pub valid : valid_privilege priv ≡ true
    pub populated : g.populated ≡ true
    pub pinned_session : g.affinity ≡ pinned
    pub no_roles : g.role_grantees ≡ []
    pub broad : IsBroad g
    pub no_specific : any has_sources specific ≡ false
    pub no_global : IsUngranted global

  resolve_global-present :
      (found : Bool)
      → (resolve_global g found global ≡ present)
        ↔ (IsDirect g × (g.partial_revokes ≡ false) × FromAccount global)
  unfolding resolve_global
  resolve_global-present found = ground (
    arith,
    state_for_sources-present g global,
    is_present_iff (state_for_sources g global),
    conclude-ne-present g found,
    conclude-ne-present g true,
  )

  resolve_global-absent :
      (found : Bool)
      → (resolve_global g found global ≡ absent)
        ↔ (IsUngranted global × (conclude g found ≡ absent))
  unfolding resolve_global
  resolve_global-absent found = ground (
    arith,
    state_for_sources-present g global,
    state_for_sources-unconfirmed g global,
    conclude-absent g true,
  )

  resolve_found :
      (valid_privilege priv ≡ true)
      → (g.populated ≡ true)
      → (flag : Bool) → scan_specific g false specific ≡ some flag
      → resolve g priv specific global ≡ resolve_global g flag global
  unfolding resolve broad_visibility
  resolve_found v p flag e = rw (v, p) (rw e)

  resolve_unknown :
      (valid_privilege priv && g.populated) ≡ false → resolve g priv specific global ≡ unknown
  unfolding resolve broad_visibility
  resolve_unknown h = ground arith

  resolve_proved :
      (valid_privilege priv ≡ true)
      → (g.populated ≡ true)
      → scan_specific g false specific ≡ none
      → resolve g priv specific global ≡ present
  unfolding resolve broad_visibility
  resolve_proved v p e = rw (v, p) (rw e)

  pub resolve-present : (resolve g priv specific global ≡ present) ↔ Established
  resolve-present = elim (Bool-cases (valid_privilege priv && g.populated)) [
    | inr n ↦
        rw (resolve_unknown n)
          (λ h. absurd (ground arith), λ k. ground (arith, k.valid, k.populated))
    | inl k ↦
        let v : valid_privilege priv ≡ true = ground arith in
        let p : g.populated ≡ true = ground arith in
        elim (Option-cases (scan_specific g false specific)) [
          | inl e ↦
              let (d, a) = (scan-none g false specific).0 e in
              (
                λ _. record { valid = v; populated = p; direct = d; granted = inl a },
                λ _. resolve_proved v p e,
              )
          | inr (flag, e) ↦ rw (resolve_found v p flag e) (
            λ h.
                let (d, r, a) = (resolve_global-present flag).0 h in
                record { valid = v; populated = p; direct = d; granted = inr (r, a) },
            λ w. elim w.granted [
              | inl a ↦ absurd (ground (arith, (scan-none g false specific).1 (w.direct, a)))
              | inr (r, a) ↦ (resolve_global-present flag).1 (w.direct, r, a)
            ],
          )
        ]
  ]

  pub resolve-absent : (resolve g priv specific global ≡ absent) ↔ RuledOut
  resolve-absent = elim (Bool-cases (valid_privilege priv && g.populated)) [
    | inr n ↦
        rw (resolve_unknown n)
          (λ h. absurd (ground arith), λ k. ground (arith, k.valid, k.populated))
    | inl k ↦
        let v : valid_privilege priv ≡ true = ground arith in
        let p : g.populated ≡ true = ground arith in
        elim (Option-cases (scan_specific g false specific)) [
          | inl e ↦
              let (d, a) = (scan-none g false specific).0 e in
              rw (resolve_proved v p e)
                (λ h. absurd (ground arith), λ w. absurd (ungranted specific w.no_specific a))
          | inr (flag, e) ↦
              let same = scan-some g false specific e in
              rw (resolve_found v p flag e) (
                λ h.
                    let (u, c) = (resolve_global-absent flag).0 h in
                    let (n, r, s, b) = (conclude-absent g flag).0 c in
                    record {
                      valid = v;
                      populated = p;
                      pinned_session = s;
                      no_roles = r;
                      broad = b;
                      no_specific = sym same ∙ n;
                      no_global = u;
                    },
                λ w. (resolve_global-absent flag).1 (
                  w.no_global,
                  (conclude-absent g flag).1
                      (same ∙ w.no_specific, w.no_roles, w.pinned_session, w.broad),
                ),
              )
        ]
  ]
