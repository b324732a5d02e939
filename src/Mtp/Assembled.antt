-- ===== src/Mtp/Assembled.antt =====
-- Decode (tokenity/inference/native_mtp/generation.py) over the layers of Cache
-- (tokenity/inference/native_mtp/cache.py): the caches keep the laws that decoding relies on.
use tokenity.Common.{ℕ, ◌≡◌, refl, Bool, true, false, List}
use tokenity.Mtp.Cache.{Layers, Layer, feed, feed_armed, restore_after_rejection, clear_rollback}
use tokenity.Mtp.Cache.Rollback.{IsClean, feed-IsClean, restore-feed_armed, clear-feed_armed}
use tokenity.Mtp.Target.{Target, Telemetry}
use tokenity.Mtp.Decode.{Batch, post_init, responses}
use tokenity.Mtp.Decode.Plain.{TargetLaws, plain, started}
use tokenity.Mtp.Decode.Refine.{prediction_refines_plain}

-- A model over layers: what a token adds to each layer, and what the model gives after a cache. A
-- pass over two tokens gives the rows of two passes, as the attention is causal.
pub record Model (L : Layers) : Type 1 where
  pub Logits : Type 0
  pub Hidden : Type 0
  pub Head : Type 0
  pub Rng : Type 0
  pub Matcher : Type 0
  pub rows : List (Layer L) → ℕ → ℕ → L.Row
  pub logits : List (Layer L) → Logits
  pub hidden : List (Layer L) → Hidden
  pub new_head : Head
  pub head : Hidden → ℕ → Head → Logits × Head
  pub has_processors : Bool
  pub process : List ℕ → Logits → Logits
  pub normalized : Logits → Logits
  pub filtered : Logits → Logits
  pub argmax : Logits → ℕ
  pub match : Matcher → ℕ → Matcher × Bool

module _ (L : Layers) (M : Model L) where
  -- one forward pass over one token
  abbrev pub extended : List (Layer L) → ℕ → List (Layer L)
  extended c a = feed L (M.rows c a) 0 c

  -- The model without temperature: the sampler takes the best token.
  abbrev pub greedy_target : Target
  greedy_target = record {
    Cache = List (Layer L);
    Logits = M.Logits;
    Hidden = M.Hidden;
    Head = M.Head;
    Rng = M.Rng;
    Matcher = M.Matcher;
    extend = extended;
    logits = M.logits;
    hidden = M.hidden;
    verify = λ c a b. feed_armed L (M.rows c a) (M.rows (extended c a) b) 0 c;
    first_row = λ c a b. (M.logits (extended c a), M.hidden (extended c a));
    second_row =
        λ c a b. (M.logits (extended (extended c a) b), M.hidden (extended (extended c a) b));
    restore = restore_after_rejection L;
    clear = clear_rollback L;
    new_head = M.new_head;
    head = M.head;
    has_processors = M.has_processors;
    process = M.process;
    normalized = M.normalized;
    filtered = M.filtered;
    is_greedy = true;
    argmax = M.argmax;
    sample = λ r l. (M.argmax l, r);
    accepts = λ r p q t. (false, r);
    residual = λ r p q. (M.argmax p, r);
    match = M.match;
  }

  greedy_laws : TargetLaws greedy_target
  greedy_laws = record {
    IsClean = IsClean L;
    extend-IsClean = λ c a h. feed-IsClean L (M.rows c a) 0 c h;
    restore-verify = λ c a b h. restore-feed_armed L (M.rows c a) (M.rows (extended c a) b) c h;
    clear-verify = λ c a b h. clear-feed_armed L (M.rows c a) (M.rows (extended c a) b) c h;
    first_row_lem = λ c a b. refl;
    second_row_lem = λ c a b. refl;
    sample-greedy = λ r l g. refl;
  }

  -- Over layers of linear attention and rotating caches, whatever they are made of and trimmable or
  -- not, with nothing left to undo: native prediction without temperature hands out the tokens, the
  -- reasons to end and the final cache of plain greedy decoding, whatever the head drafts.
  pub prediction_over_layers :
      (n main : ℕ) (l : M.Logits) (t : Telemetry) (b : Batch greedy_target)
      → IsClean L b.prompt_cache
      → responses greedy_target n
          (post_init greedy_target main l t b).0
          (post_init greedy_target main l t b).1
        ≡ plain greedy_target n (started greedy_target main b)
  unfolding greedy_laws
  prediction_over_layers n main l t b clean =
      prediction_refines_plain greedy_target greedy_laws n main l t b refl clean
