-- ===== src/Routing/Choice.antt =====
-- Which models `AutoRouter.decide` of tokenity/control/routing.py may choose.
use tokenity.Common.{
  ◌≡◌, refl, Bool, true, false, if◌then◌else◌, ◌==◌, ◌&&◌, any, All, All-keep, All-map, keep, List,
  [], ◌∷◌, Option, none, some, String, lookup, pair_eq, string_eq, or_default, arith, Option-cases,
  Bool-cases, inl, inr, subst, beq_refl,
}
use tokenity.Routing.{
  Floats, RouteContext, RoutePolicy, Profile, RuntimeState, Key, key_of, infer_task_category,
  hard_constraint_reasons, is_empty,
}
use tokenity.Routing.Decide.{
  runtime_by_key, Ranked, eligible_profiles, eligible_by_key, best_of, best_match, best_for_model,
  named, sticky, insert_ranked, rank, by_score, from_rank, select, RouterMetrics, decide, beats,
}

module _ (F : Floats) where
  open F use {Float}

  -- Does the profile meet every hard constraint, with the runtime of its key?
  abbrev pub passes : List (RuntimeState F) → RouteContext → Profile F → Bool
  passes rs x p =
      is_empty (hard_constraint_reasons F p (lookup (key_of F p) (runtime_by_key F rs [])) x)

  -- Does a profile with that key pass?
  abbrev pub offers : List (RuntimeState F) → RouteContext → List (Profile F) → Key → Bool
  offers rs x ps k = any (λ p. key_of F p == k && passes rs x p) ps

  -- Its profile is offered.
  IsOffered : List (RuntimeState F) → RouteContext → List (Profile F) → Ranked F → Type 0
  IsOffered rs x ps r = offers rs x ps (key_of F r.profile) ≡ true

  All-if :
      (P : Ranked F → Type 0) (b : Bool) (r : Ranked F) (rest : List (Ranked F))
      → (b ≡ true → P r)
      → All P rest
      → All P (if b then r ∷ rest else rest)
  All-if P true r rest h k = (h refl, k)
  All-if P false r rest h k = k

  offers-here :
      (rs : List (RuntimeState F)) (x : RouteContext) (p : Profile F) (ps : List (Profile F))
      (v : Float)
      → passes rs x p ≡ true
      → IsOffered rs x (p ∷ ps) (record { profile = p; score = v })
  unfolding IsOffered
  offers-here rs x p ps v h = ground (arith, beq_refl (key_of F p))

  offers-later :
      (rs : List (RuntimeState F)) (x : RouteContext) (p : Profile F) (ps : List (Profile F))
      (r : Ranked F)
      → IsOffered rs x ps r
      → IsOffered rs x (p ∷ ps) r
  unfolding IsOffered
  offers-later rs x p ps r h = ground arith

  All-eligible_profiles :
      (rs : List (RuntimeState F)) (c : String) (x : RouteContext) (w : RoutePolicy F)
      (ps : List (Profile F))
      → All (IsOffered rs x ps) (eligible_profiles F (runtime_by_key F rs []) c x w ps)
  unfolding eligible_profiles
  All-eligible_profiles rs c x w [] = tt
  All-eligible_profiles rs c x w (p ∷ ps) =
      All-if (IsOffered rs x (p ∷ ps)) (passes rs x p) _ _ (offers-here rs x p ps _) (
        All-map (IsOffered rs x ps) (IsOffered rs x (p ∷ ps))
          (eligible_profiles F (runtime_by_key F rs []) c x w ps) (offers-later rs x p ps)
          (All-eligible_profiles rs c x w ps))

  module _ (P : Ranked F → Type 0) where
    eligible_by_key-All :
        (k : Key) (rs : List (Ranked F)) (r : Ranked F)
        → All P rs
        → eligible_by_key F k rs ≡ some r
        → P r
    unfolding eligible_by_key
    eligible_by_key-All k [] r h e = cc
    eligible_by_key-All k (q ∷ qs) r h e = elim (Option-cases (eligible_by_key F k qs)) [
      | inl n ↦ ground (arith, h.0)
      | inr (later, n) ↦ ground (arith, eligible_by_key-All k qs later h.1 n)
    ]

    best_of-All : (m : Ranked F) (rs : List (Ranked F)) → P m → All P rs → P (best_of F m rs)
    unfolding best_of
    best_of-All m [] h k = h
    best_of-All m (r ∷ rs) h k = elim (Bool-cases (beats F r m)) [
      | inl e ↦ rw e (best_of-All r rs k.0 k.1)
      | inr e ↦ rw e (best_of-All m rs h k.1)
    ]

    best_match-All :
        (rs : List (Ranked F)) (r : Ranked F) → All P rs → best_match F rs ≡ some r → P r
    best_match-All [] r h e = cc
    best_match-All (q ∷ qs) r h e = ground (arith, best_of-All q qs h.0 h.1)

    best_for_model-All :
        (id : Option String) (rs : List (Ranked F)) (r : Ranked F)
        → All P rs
        → best_for_model F id rs ≡ some r
        → P r
    unfolding best_for_model
    best_for_model-All none rs r h e = cc
    best_for_model-All (some id) rs r h e =
        let f = λ (q : Ranked F). q.profile.model_id == id in
        ground (arith, best_match-All (keep f rs) r (All-keep P f rs h))

    named-All :
        (id revision : Option String) (rs : List (Ranked F)) (r : Ranked F)
        → All P rs
        → named F id revision rs ≡ some r
        → P r
    unfolding named
    named-All id revision rs r h e = ground (
      arith,
      eligible_by_key-All (or_default id "", or_default revision "") rs r h,
      best_for_model-All id rs r h,
    )

    All-insert_ranked :
        (a : Ranked F) (rs : List (Ranked F)) → P a → All P rs → All P (insert_ranked F a rs)
    unfolding insert_ranked
    All-insert_ranked a [] h k = (h, tt)
    All-insert_ranked a (r ∷ rs) h k = ground (arith, All-insert_ranked a rs h k.1)

    All-rank : (rs : List (Ranked F)) → All P rs → All P (rank F rs)
    unfolding rank
    All-rank [] h = tt
    All-rank (r ∷ rs) h = All-insert_ranked r (rank F rs) h.0 (All-rank rs h.1)

    by_score-All :
        (c : String) (w : RoutePolicy F) (d : Option (Ranked F)) (top : Ranked F)
        (rest : List (Ranked F)) (k : Key)
        → P top
        → ((r : Ranked F) → d ≡ some r → P r)
        → (by_score F c w d top rest).selected ≡ some k
        → (r : Ranked F) × P r × (key_of F r.profile ≡ k)
    unfolding by_score
    by_score-All c w d top [] k h f e = (top, h, ground arith)
    by_score-All c w none top (second ∷ rest) k h f e = (top, h, ground arith)
    by_score-All c w (some q) top (second ∷ rest) k h f e =
        elim (Bool-cases (F.lt (F.minus top.score second.score) w.low_confidence_margin)) [
          | inl b ↦ (q, f q refl, ground arith)
          | inr b ↦ (top, h, ground arith)
        ]

    from_rank-All :
        (c : String) (x : RouteContext) (w : RoutePolicy F) (rs sorted : List (Ranked F)) (k : Key)
        → All P rs
        → All P sorted
        → (from_rank F c x w rs sorted).selected ≡ some k
        → (r : Ranked F) × P r × (key_of F r.profile ≡ k)
    from_rank-All c x w rs [] k h g e = cc
    from_rank-All c x w rs (top ∷ rest) k h g e =
        by_score-All c w (best_for_model F x.default_model_id rs) top rest k g.0
          (λ r q. best_for_model-All x.default_model_id rs r h q) e

    sticky-All :
        (x : RouteContext) (rs : List (Ranked F)) (r : Ranked F)
        → All P rs
        → sticky F x rs ≡ some r
        → P r
    sticky-All x rs r h e = ground (arith, named-All x.sticky_model_id x.sticky_revision rs r h)

    select-All :
        (c : String) (x : RouteContext) (w : RoutePolicy F) (rs : List (Ranked F)) (k : Key)
        → All P rs
        → (select F c x w rs).selected ≡ some k
        → (r : Ranked F) × P r × (key_of F r.profile ≡ k)
    unfolding select
    select-All c x w rs k h e =
        elim (Option-cases (named F x.explicit_model_id x.explicit_revision rs)) [
          | inr (r, n) ↦ (r, named-All _ _ rs r h n, ground arith)
          | inl n ↦ elim (Option-cases (sticky F x rs)) [
            | inr (r, m) ↦ (r, sticky-All x rs r h m, ground arith)
            | inl m ↦ from_rank-All c x w rs (rank F rs) k h (All-rank rs h) (ground arith)
          ]
        ]

  -- A model that is decided on is the model of some profile that meets every hard constraint, by
  -- the runtime state of its key.
  pub decide-offers :
      (ps : List (Profile F)) (rs : List (RuntimeState F)) (x : RouteContext) (w : RoutePolicy F)
      (latency : Float) (m : RouterMetrics F) (k : Key)
      → (decide F ps rs x w latency m).1.selected ≡ some k
      → offers rs x ps k ≡ true
  unfolding decide IsOffered
  decide-offers ps rs x w latency m k h =
      let c = infer_task_category x in
      let (r, offered, e) =
        select-All (IsOffered rs x ps) c x w (eligible_profiles F (runtime_by_key F rs []) c x w ps)
          k (All-eligible_profiles rs c x w ps) h in
      subst (λ z. offers rs x ps z ≡ true) e offered
