-- ===== src/Router/Turns.antt =====
-- When the router refuses, and how it goes round the least loaded instances.
use tokenity.Common.{
  ℕ, zero, suc, ◌+◌, ◌%◌, ◌<◌, ◌≡◌, ◌≢◌, inl, inr, ◌∙◌, ap, sym, true, ◌==◌, if◌then◌else◌, List,
  [], ◌∷◌, Option, some, or_default, String, lookup, insert, lookup-insert, strip, arith, string_eq,
  option_eq, pair_eq, eq_iff, get_or, length, beq_refl, Bool-cases,
}
use native.Mathlib.Nat.{mod-mod, mod-add-mod, add-zero}
use tokenity.Errors.{Error, Result, ok, err}
use tokenity.Instance.{ModelInstance}
use tokenity.Registry.{Registry, get, snapshots}
use tokenity.Registry.Ownership.{IsKeyed}
use tokenity.Router.{
  eligible, judge, Scan, found, candidates, scan, choose, conclude, Cursor, resolve, least_loaded,
  cursor_index,
}
use tokenity.Router.Sound.{Covers, scan-Covers}
use tokenity.Router.Balance.{Covered-lookup, least_loaded-pos}

module _ (key : String) (revision : Option String) (excluded : List String) (r : Registry) where
  conclude-err :
      (cursor : Cursor) (s : Scan) (e : Error) (j : ModelInstance)
      → Covers key revision excluded r (λ _. ⊥) [] (snapshots r) s
      → conclude key revision cursor s ≡ err e
      → lookup j.instance_id r ≡ some j
      → eligible revision excluded j ≡ true
      → (j.instance_id ≢ key) × (j.requested_model_id ≢ key)
  unfolding choose judge get
  conclude-err cursor (found i) e j covers h own passes = cc
  conclude-err cursor (candidates []) e j covers h own passes =
      let covered =
        Covered-lookup key revision excluded r (λ _. ⊥) j.instance_id j (covers tt).1 own in
      (
        (λ same. covered.1 j (rw own (ground (arith, eq_iff j.instance_id key)))),
        (λ same. elim (Bool-cases (j.instance_id == key)) [
          | inl e ↦ covered.1 j (rw own (ground arith))
          | inr e ↦ covered.0 j (rw own (ground (arith, eq_iff j.requested_model_id key)))
        ]),
      )
  conclude-err cursor (candidates (x ∷ xs)) e j covers h own passes = cc

-- The router refuses only an empty name, or a name that is neither the id nor the alias of any
-- registered instance that may serve the request.
pub resolve-err :
    (name : String) (revision : Option String) (excluded : List String) (r : Registry)
    (cursor : Cursor) (e : Error) (j : ModelInstance) (k : String)
    → IsKeyed r
    → resolve name revision excluded r cursor ≡ err e
    → strip name ≢ ""
    → lookup k r ≡ some j
    → eligible revision excluded j ≡ true
    → (j.instance_id ≢ strip name) × (j.requested_model_id ≢ strip name)
unfolding resolve
resolve-err name revision excluded r cursor e j k keyed h named found_j passes =
    let key = strip name in
    conclude-err key revision excluded r cursor (scan key revision excluded r [] (snapshots r)) e j
      (scan-Covers key revision excluded r _ [] (snapshots r))
      (ground (arith, eq_iff (strip name) ""))
      (ap (λ z. lookup z r) (keyed.at_key k j found_j) ∙ found_j) passes

mod_start : (a n : ℕ) → 0 < n → a % n ≡ (a % n + 0) % n
mod_start a n h = sym (mod-add-mod a n 0 ∙ ap (λ k. k % n) (add-zero a))

mod_step : (a m n : ℕ) → 0 < n → ((a + m) % n + 1) % n % n ≡ (a + suc m) % n
mod_step a m n h =
    mod-mod ((a + m) % n + 1) n
    ∙ mod-add-mod (a + m) n 1
    ∙ ap (λ k. k % n) (let e : a + m + 1 ≡ a + suc m = omega arith in e)

-- The cursor after that many calls with the same arguments.
abbrev pub cursor_of : Cursor → Result (Cursor × ModelInstance) → Cursor
cursor_of old (ok (c, i)) = c
cursor_of old (err e) = old

pub turns : ℕ → String → Option String → List String → Registry → Cursor → Cursor
turns zero name revision excluded r cursor = cursor
turns (suc m) name revision excluded r cursor =
    let before = turns m name revision excluded r cursor in
    cursor_of before (resolve name revision excluded r before)

module _ (name : String) (revision : Option String) (excluded : List String) (r : Registry)
    (x : ModelInstance) (xs : List ModelInstance) (named : strip name ≢ "")
    (several : scan (strip name) revision excluded r [] (snapshots r) ≡ candidates (x ∷ xs)) where
  abbrev pub best : List ModelInstance
  best = least_loaded x xs

  abbrev pub index : Cursor → ℕ
  index cursor = cursor_index (strip name) revision cursor (length best)

  resolve-choose :
      (cursor : Cursor)
      → resolve name revision excluded r cursor
        ≡ ok (
          insert (strip name, revision) ((index cursor + 1) % length best) cursor,
          get_or best (index cursor) x,
        )
  unfolding resolve choose
  resolve-choose cursor = ground (arith, eq_iff (strip name) "", several)

  index-insert :
      (cursor : Cursor) (n : ℕ) → index (insert (strip name, revision) n cursor) ≡ n % length best
  index-insert cursor n =
      ap (λ (o : Option ℕ). or_default o 0 % length best)
        (lookup-insert (strip name, revision) (strip name, revision) n cursor
          ∙ ap (λ b. if b then some n else lookup (strip name, revision) cursor)
              (beq_refl {A = String × Option String} (strip name, revision)))

  index-turns :
      (m : ℕ) (cursor : Cursor)
      → index (turns m name revision excluded r cursor) ≡ (index cursor + m) % length best
  unfolding turns
  index-turns zero cursor =
      mod_start (or_default (lookup (strip name, revision) cursor) 0) (length best)
        (least_loaded-pos x xs)
  index-turns (suc m) cursor =
      let before = turns m name revision excluded r cursor in
      rw (resolve-choose before) (
        index-insert before ((index before + 1) % length best)
        ∙ ap (λ i. (i + 1) % length best % length best) (index-turns m cursor)
        ∙ mod_step (index cursor) m (length best) (least_loaded-pos x xs))

  -- Called again and again on an unchanged registry with an alias that fits several instances, the
  -- router hands out the least loaded of them in the order of their ids, one after the other, and
  -- begins again after the last: the call after `m` others gets the one `m` places on from where
  -- the first began, counted round.
  pub resolve-turns :
      (m : ℕ) (cursor : Cursor)
      → resolve name revision excluded r (turns m name revision excluded r cursor)
        ≡ ok (
          turns (suc m) name revision excluded r cursor,
          get_or best ((index cursor + m) % length best) x,
        )
  unfolding turns
  resolve-turns m cursor =
      let before = turns m name revision excluded r cursor in
      rw (resolve-choose before) (
        ap
          (λ i. ok (
            insert (strip name, revision) ((index before + 1) % length best) before,
            get_or best i x,
          ))
          (index-turns m cursor))
