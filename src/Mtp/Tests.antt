-- ===== src/Mtp/Tests.antt =====
-- Two layers that hold the tokens themselves, one of linear attention and one rotating that can be
-- trimmed up to five tokens; a head that is right about every other token.
use tokenity.Common.{
  arith, ℕ, ◌+◌, ◌*◌, ◌%◌, ◌≤◌, ◌≡◌, refl, ap, true, false, leb, length, List, [], ◌∷◌, ◌++◌,
  Option, none, sum, or_default,
}
use tokenity.Mtp.Cache.{
  Layers, Layer, linear, rotating, feed, feed_armed, update_layer, restore_after_rejection,
  restore_layers, restore_layer, trim_rotating, all_restorable, clear_rollback, may_trim,
  update_linear, update_and_fetch,
}
use tokenity.Mtp.Cache.Rollback.{restore-feed_armed}
use tokenity.Mtp.Target.{drop_last, record_proposal, record_emitted, finish_reason_of}
use tokenity.Mtp.Decode.{
  Batch, MtpState, post_init, responses, mtp_next, verify_cycle, accept, reject, step_head,
  is_accepted, replacement, pop_queue, emit, conclude, commit_last_uncached,
}
use tokenity.Mtp.Decode.Plain.{plain, started}
use tokenity.Mtp.Decode.Counts.{zero_telemetry, after, verify_items, telemetry_counts}
use tokenity.Mtp.Assembled.{Model, greedy_target, prediction_over_layers}

append_two : (s : List ℕ) (a b : ℕ) → s ++ a ∷ b ∷ [] ≡ (s ++ a ∷ []) ++ b ∷ []
append_two [] a b = refl
append_two (x ∷ s) a b = ap (λ r. x ∷ r) (append_two s a b)

drop_two : (s : List ℕ) (a b : ℕ) → drop_last (s ++ a ∷ b ∷ []) ≡ s ++ a ∷ []
drop_two [] a b = refl
drop_two (x ∷ []) a b = refl
drop_two (x ∷ y ∷ s) a b = ap (λ r. x ∷ r) (drop_two (y ∷ s) a b)

abbrev lists : Layers
lists = record {
  Store = List ℕ;
  Row = ℕ;
  update = λ s rows. s ++ rows;
  is_trimmable = λ s. leb (length s) 5;
  trim = λ s n. (drop_last s, n);
  update-append = append_two;
  trim-update = λ s a b h i. (drop_two s a b i, 1);
}

abbrev total : List (Layer lists) → ℕ
total [] = 0
total (linear l ∷ ls) = sum l.state + total ls
total (rotating r ∷ ls) = sum r.fields + total ls

abbrev model : Model lists
model = record {
  Logits = ℕ;
  Hidden = ℕ;
  Head = ℕ;
  Rng = ℕ;
  Matcher = ℕ;
  rows = λ c token layer. token + layer;
  logits = λ c. total c;
  hidden = λ c. total c;
  new_head = 0;
  head = λ hidden token calls. (hidden + 2 * token + calls, calls + 1);
  has_processors = true;
  process = λ context l. l + length context;
  normalized = λ l. l;
  filtered = λ l. l;
  argmax = λ l. l % 7;
  match = λ m token. (m, false);
}

abbrev layers : List (Layer lists)
layers =
    linear (record { state = 1 ∷ 2 ∷ []; rollback_state = none })
    ∷ rotating (record { fields = 1 ∷ 2 ∷ []; undo = none })
    ∷ []

abbrev batch : Batch (greedy_target lists model)
batch = record {
  prompt_cache = layers;
  token_context = 1 ∷ 2 ∷ [];
  tokens = [];
  num_tokens = 0;
  max_tokens = 9;
  matcher_state = 0;
  rng = 0;
}

restore-feed_armed_example :
    restore_after_rejection lists (feed_armed lists (λ i. i) (λ i. 3) 0 layers)
    ≡ (feed lists (λ i. i) 0 layers, true)
restore-feed_armed_example = restore-feed_armed lists (λ i. i) (λ i. 3) layers (refl, (refl, tt))

prediction_over_layers_example :
    responses
      (greedy_target lists model)
      12
      (post_init (greedy_target lists model) 3 0 zero_telemetry batch).0
      (post_init (greedy_target lists model) 3 0 zero_telemetry batch).1
    ≡ plain (greedy_target lists model) 12 (started (greedy_target lists model) 3 batch)
prediction_over_layers_example =
    prediction_over_layers lists model 12 3 0 zero_telemetry batch (refl, (refl, tt))

abbrev six_calls : Option (Batch (greedy_target lists model) × MtpState (greedy_target lists model))
six_calls =
    after (greedy_target lists model) 6
      (post_init (greedy_target lists model) 3 0 zero_telemetry batch).0
      (post_init (greedy_target lists model) 3 0 zero_telemetry batch).1

abbrev left : Batch (greedy_target lists model) × MtpState (greedy_target lists model)
left = or_default six_calls (post_init (greedy_target lists model) 3 0 zero_telemetry batch)

telemetry_counts_example :
    (left.1.telemetry.verify_cycles ≡ left.1.telemetry.proposed_tokens)
    × (left.1.telemetry.accepted_tokens ≤ left.1.telemetry.proposed_tokens)
    × (left.1.telemetry.emitted_verify_tokens
          + verify_items (greedy_target lists model) left.1.queue
        ≡ left.1.telemetry.verify_cycles + left.1.telemetry.accepted_tokens)
unfolding after post_init mtp_next verify_cycle accept reject step_head is_accepted replacement
    record_proposal record_emitted pop_queue emit conclude finish_reason_of commit_last_uncached
    feed feed_armed update_layer restore_after_rejection restore_layers restore_layer trim_rotating
    all_restorable clear_rollback may_trim update_linear update_and_fetch
telemetry_counts_example =
    telemetry_counts (greedy_target lists model) 6 3 0 zero_telemetry batch left.0 left.1 refl
      (omega arith) refl refl

-- Of the drafts that the six calls verify, some are accepted and some are not.
drafts : (left.1.telemetry.proposed_tokens ≡ 3) × (left.1.telemetry.accepted_tokens ≡ 1)
unfolding after post_init mtp_next verify_cycle accept reject step_head is_accepted replacement
    record_proposal record_emitted pop_queue emit conclude finish_reason_of commit_last_uncached
    feed feed_armed update_layer restore_after_rejection restore_layers restore_layer trim_rotating
    all_restorable clear_rollback may_trim update_linear update_and_fetch
drafts = (refl, refl)
