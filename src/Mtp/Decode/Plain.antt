-- ===== src/Mtp/Decode/Plain.antt =====
-- Plain greedy decoding, one token at a time: what native prediction
-- (tokenity/inference/native_mtp/generation.py) is to agree with. And what it relies on in the
-- model and its caches.
use tokenity.Common.{ℕ, zero, suc, ◌+◌, ◌≡◌, true, List, [], ◌∷◌, Option, none, some}
use tokenity.Mtp.Target.{Target, FinishReason, finish_reason_of}
use tokenity.Mtp.Decode.{Batch, Response, apply_processors, noted}

-- A pass over two tokens gives the rows of two passes; taking back and clearing leave the caches of
-- plain passes, from a clean cache on; without temperature the sampler takes the best token.
pub record TargetLaws (T : Target) : Type 1 where
  pub IsClean : T.Cache → Type 0
  pub extend-IsClean : (c : T.Cache) (a : ℕ) → IsClean c → IsClean (T.extend c a)
  pub restore-verify :
      (c : T.Cache) (a b : ℕ) → IsClean c → T.restore (T.verify c a b) ≡ (T.extend c a, true)
  pub clear-verify :
      (c : T.Cache) (a b : ℕ) → IsClean c → T.clear (T.verify c a b) ≡ T.extend (T.extend c a) b
  pub first_row_lem : (c : T.Cache) (a b : ℕ) → (T.first_row c a b).0 ≡ T.logits (T.extend c a)
  pub second_row_lem :
      (c : T.Cache) (a b : ℕ) → (T.second_row c a b).0 ≡ T.logits (T.extend (T.extend c a) b)
  pub sample-greedy :
      (r : T.Rng) (l : T.Logits) → T.is_greedy ≡ true → (T.sample r l).0 ≡ T.argmax l

module _ (T : Target) where
  open T use {Cache, Matcher}

  -- The token that comes next, and what came before it.
  pub record Plain : Type 0 where
    pub pending : ℕ
    pub cache : Cache
    pub context : List ℕ
    pub count : ℕ
    pub limit : ℕ
    pub matcher : Matcher

  -- The best token after a cache, as the processors see it.
  abbrev pub choose_next : Cache → List ℕ → ℕ
  choose_next c context = T.argmax (T.normalized (apply_processors T context (T.logits c)))

  unfoldable pub advance : Plain → Plain
  advance p =
      let after = T.extend p.cache p.pending in
      let context = noted T p.context p.pending in
      record {
        pending = choose_next after context;
        cache = after;
        context = context;
        count = p.count + 1;
        limit = p.limit;
        matcher = (T.match p.matcher p.pending).0;
      }

  unfoldable pub reason_of : Plain → Option FinishReason
  reason_of p = finish_reason_of (p.count + 1) p.limit (T.match p.matcher p.pending).1

  -- At its end a sequence hands out the cache of all its tokens.
  unfoldable pub respond : Option FinishReason → Plain → Response T
  respond none p = record { token = p.pending; finish_reason = none; prompt_cache = none }
  respond (some r) p = record {
    token = p.pending;
    finish_reason = some r;
    prompt_cache = some (T.extend p.cache p.pending);
  }

  abbrev pub unless_ended : Option FinishReason → List (Response T) → List (Response T)
  unless_ended none rest = rest
  unless_ended (some r) rest = []

  unfoldable pub plain : ℕ → Plain → List (Response T)
  plain zero p = []
  plain (suc n) p = respond (reason_of p) p ∷ unless_ended (reason_of p) (plain n (advance p))

  -- Where plain decoding stands when the batch starts to predict.
  abbrev pub started : ℕ → Batch T → Plain
  started main b = record {
    pending = main;
    cache = b.prompt_cache;
    context = b.token_context;
    count = b.num_tokens;
    limit = b.max_tokens;
    matcher = b.matcher_state;
  }
