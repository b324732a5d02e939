-- ===== src/Routing/Outcome.antt =====
-- When `AutoRouter.decide` of tokenity/control/routing.py finds a model, when a named one is taken,
-- and what the metrics count.
use tokenity.Common.{
  suc, ◌+◌, ◌≤◌, ◌≡◌, refl, ◌∙◌, ap, Bool, true, false, if◌then◌else◌, ◌==◌, ◌&&◌, not, any, List,
  [], ◌∷◌, Option, none, some, String, pair_eq, string_eq, is_none, arith, Option-cases, Bool-cases,
  inl, inr, pair_beq_iff, ◌↔◌, ◌⊎◌,
}
use tokenity.Routing.{
  Floats, RouteContext, RoutePolicy, Profile, RuntimeState, Key, key_of, infer_task_category,
  is_empty, has_text, explicit_model,
}
use tokenity.Routing.Decide.{
  runtime_by_key, Ranked, eligible_profiles, eligible_by_key, best_for_model, named, sticky,
  insert_ranked, rank, by_score, from_rank, select, RouterMetrics, record_decision, decide,
  is_sticky,
}
use tokenity.Routing.Choice.{passes, offers}

pair_iff : (a b : Key) → ((a == b) ≡ true) ↔ (a ≡ b)
pair_iff = pair_beq_iff

module _ (F : Floats) where
  open F use {Float}

  empty-eligible_profiles :
      (rs : List (RuntimeState F)) (c : String) (x : RouteContext) (w : RoutePolicy F)
      (ps : List (Profile F))
      → is_empty (eligible_profiles F (runtime_by_key F rs []) c x w ps)
        ≡ not (any (passes F rs x) ps)
  unfolding eligible_profiles
  empty-eligible_profiles rs c x w [] = refl
  empty-eligible_profiles rs c x w (p ∷ ps) = elim (Bool-cases (passes F rs x p)) [
    | inl e ↦ ground (arith, e)
    | inr e ↦ ground (arith, e, empty-eligible_profiles rs c x w ps)
  ]

  empty-rank : (rs : List (Ranked F)) → is_empty (rank F rs) ≡ is_empty rs
  unfolding rank insert_ranked
  empty-rank [] = refl
  empty-rank (r ∷ rs) = inserted (rank F rs)
    where
      inserted : (qs : List (Ranked F)) → is_empty (insert_ranked F r qs) ≡ false
      inserted [] = refl
      inserted (q ∷ qs) = ground arith

  none-by_score :
      (c : String) (w : RoutePolicy F) (d : Option (Ranked F)) (top : Ranked F)
      (rest : List (Ranked F))
      → is_none (by_score F c w d top rest).selected ≡ false
  unfolding by_score
  none-by_score c w d top [] = refl
  none-by_score c w none top (second ∷ rest) = ground arith
  none-by_score c w (some q) top (second ∷ rest) =
      elim (Bool-cases (F.lt (F.minus top.score second.score) w.low_confidence_margin)) [
        | inl b ↦ ground arith
        | inr b ↦ ground arith
      ]

  none-from_rank :
      (c : String) (x : RouteContext) (w : RoutePolicy F) (rs qs : List (Ranked F))
      → is_none (from_rank F c x w rs qs).selected ≡ is_empty qs
  none-from_rank c x w rs [] = refl
  none-from_rank c x w rs (top ∷ rest) = none-by_score c w _ top rest

  named-empty : (id revision : Option String) → named F id revision [] ≡ none
  unfolding named best_for_model eligible_by_key
  named-empty none revision = ground arith
  named-empty (some id) revision = ground arith

  none-select :
      (c : String) (x : RouteContext) (w : RoutePolicy F) (rs : List (Ranked F))
      → is_none (select F c x w rs).selected ≡ is_empty rs
  unfolding select
  none-select c x w [] = ground (
    arith,
    named-empty x.explicit_model_id x.explicit_revision,
    named-empty x.sticky_model_id x.sticky_revision,
    none-from_rank c x w [] (rank F []),
    empty-rank [],
  )
  none-select c x w (r ∷ rs) =
      elim (Option-cases (named F x.explicit_model_id x.explicit_revision (r ∷ rs))) [
        | inr (q, n) ↦ ground (arith, n)
        | inl n ↦ elim (Option-cases (sticky F x (r ∷ rs))) [
          | inr (q, m) ↦ ground (arith, n, m)
          | inl m ↦
              ground
                (arith, n, m, none-from_rank c x w (r ∷ rs) (rank F (r ∷ rs)), empty-rank (r ∷ rs))
        ]
      ]

  -- A decision names no model exactly where no profile meets every hard constraint.
  pub decide-none :
      (ps : List (Profile F)) (rs : List (RuntimeState F)) (x : RouteContext) (w : RoutePolicy F)
      (latency : Float) (m : RouterMetrics F)
      → is_none (decide F ps rs x w latency m).1.selected ≡ not (any (passes F rs x) ps)
  unfolding decide
  decide-none ps rs x w latency m =
      none-select (infer_task_category x) x w _
      ∙ empty-eligible_profiles rs (infer_task_category x) x w ps

  eligible_by_key-if :
      (b : Bool) (r : Ranked F) (rest : List (Ranked F)) (k : Key)
      → (is_none (eligible_by_key F k rest) ≡ false) ⊎ ((key_of F r.profile == k) && b ≡ true)
      → is_none (eligible_by_key F k (if b then r ∷ rest else rest)) ≡ false
  unfolding eligible_by_key
  eligible_by_key-if b r rest k h = elim (Option-cases (eligible_by_key F k rest)) [
    | inl n ↦ ground (arith, n)
    | inr (q, n) ↦ ground (arith, n)
  ]

  eligible_by_key-found :
      (rs : List (RuntimeState F)) (c : String) (x : RouteContext) (w : RoutePolicy F)
      (ps : List (Profile F)) (k : Key)
      → offers F rs x ps k ≡ true
      → is_none (eligible_by_key F k (eligible_profiles F (runtime_by_key F rs []) c x w ps))
        ≡ false
  unfolding eligible_profiles
  eligible_by_key-found rs c x w [] k h = absurd (ground arith)
  eligible_by_key-found rs c x w (p ∷ ps) k h =
      eligible_by_key-if (passes F rs x p) _ _ k (elim (Bool-cases (offers F rs x ps k)) [
        | inl e ↦ inl (eligible_by_key-found rs c x w ps k e)
        | inr e ↦ inr (ground arith)
      ])

  eligible_by_key-key :
      (k : Key) (rs : List (Ranked F)) (r : Ranked F)
      → eligible_by_key F k rs ≡ some r
      → key_of F r.profile ≡ k
  unfolding eligible_by_key
  eligible_by_key-key k [] r h = cc
  eligible_by_key-key k (q ∷ qs) r h = elim (Option-cases (eligible_by_key F k qs)) [
    | inl n ↦ ground (arith, n, pair_iff (key_of F q.profile) k)
    | inr (later, n) ↦ ground (arith, n, eligible_by_key-key k qs later n)
  ]

  named-both :
      (a b : Option String) (id revision : String) (qs : List (Ranked F))
      → a ≡ some id
      → b ≡ some revision
      → has_text (some id) ≡ true
      → has_text (some revision) ≡ true
      → named F a b qs ≡ eligible_by_key F (id, revision) qs
  unfolding named
  named-both a b id revision qs e f g h = rw (e, f) (ground (arith, g, h))

  select-named :
      (c : String) (x : RouteContext) (w : RoutePolicy F) (qs : List (Ranked F)) (r : Ranked F)
      → named F x.explicit_model_id x.explicit_revision qs ≡ some r
      → ((select F c x w qs).selected ≡ some (key_of F r.profile))
        × ((select F c x w qs).reason ≡ explicit_model)
  unfolding select
  select-named c x w qs r n = ground (arith, n)

  -- Where the request names a model and a revision and a profile with that key meets every hard
  -- constraint, the decision is that model, as the explicit one.
  pub decide-explicit :
      (ps : List (Profile F)) (rs : List (RuntimeState F)) (x : RouteContext) (w : RoutePolicy F)
      (latency : Float) (m : RouterMetrics F) (id revision : String)
      → x.explicit_model_id ≡ some id
      → x.explicit_revision ≡ some revision
      → has_text (some id) ≡ true
      → has_text (some revision) ≡ true
      → offers F rs x ps (id, revision) ≡ true
      → ((decide F ps rs x w latency m).1.selected ≡ some (id, revision))
        × ((decide F ps rs x w latency m).1.reason ≡ explicit_model)
  unfolding decide
  decide-explicit ps rs x w latency m id revision e f g h o =
      let c = infer_task_category x in
      let qs = eligible_profiles F (runtime_by_key F rs []) c x w ps in
      let found = eligible_by_key-found rs c x w ps (id, revision) o in
      elim (Option-cases (eligible_by_key F (id, revision) qs)) [
        | inl n ↦ absurd (ground (arith, n, found))
        | inr (r, n) ↦
            (let taken =
                select-named c x w qs r
                  (named-both x.explicit_model_id x.explicit_revision id revision qs e f g h ∙ n) in
              (taken.0 ∙ ap some (eligible_by_key-key (id, revision) qs r n), taken.1))
      ]

  sticky-by_score :
      (c : String) (x : RouteContext) (w : RoutePolicy F) (rs qs : List (Ranked F))
      → is_none (from_rank F c x w rs qs).selected && is_sticky F (from_rank F c x w rs qs).reason
        ≡ false
  sticky-by_score c x w rs [] = refl
  sticky-by_score c x w rs (top ∷ rest) =
      ground (arith, none-by_score c w (best_for_model F x.default_model_id rs) top rest)

  sticky-select :
      (c : String) (x : RouteContext) (w : RoutePolicy F) (rs : List (Ranked F))
      → is_none (select F c x w rs).selected && is_sticky F (select F c x w rs).reason ≡ false
  unfolding select
  sticky-select c x w rs =
      elim (Option-cases (named F x.explicit_model_id x.explicit_revision rs)) [
        | inr (q, n) ↦ ground (arith, n)
        | inl n ↦ elim (Option-cases (sticky F x rs)) [
          | inr (q, m) ↦ ground (arith, n, m)
          | inl m ↦ ground (arith, n, m, sticky-by_score c x w rs (rank F rs))
        ]
      ]

  -- What the metrics count: no decision is a failure and a sticky hit at once.
  unfoldable pub IsCounted : RouterMetrics F → Type 0
  IsCounted m = m.failures + m.sticky_hits ≤ m.decisions

  -- A decision is counted once, and where the failures and the sticky hits together were within the
  -- decisions they still are.
  pub decide-IsCounted :
      (ps : List (Profile F)) (rs : List (RuntimeState F)) (x : RouteContext) (w : RoutePolicy F)
      (latency : Float) (m : RouterMetrics F)
      → IsCounted m
      → IsCounted (decide F ps rs x w latency m).0
        × ((decide F ps rs x w latency m).0.decisions ≡ suc m.decisions)
  unfolding decide record_decision IsCounted
  decide-IsCounted ps rs x w latency m h =
      let c = infer_task_category x in
      let qs = eligible_profiles F (runtime_by_key F rs []) c x w ps in
      (ground (arith, sticky-select c x w qs), ground arith)
