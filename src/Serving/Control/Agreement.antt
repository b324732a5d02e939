-- ===== src/Serving/Control/Agreement.antt =====
-- The control messages of tokenity/serving/distributed_openai.py from end to end: what
-- rank 0 shares and what the other ranks receive.
use tokenity.Common.{
  ℕ, suc, ◌+◌, ◌≤◌, ◌<◌, ◌≡◌, ◌≢◌, refl, sym, ap, Bool, true, false, if◌then◌else◌, ◌&&◌, ◌||◌, ltb,
  nat_beq, length, List, [], ◌∷◌, All, map, Option, none, some, is_none, arith, inl, inr,
  Bool-cases,
}
use tokenity.Errors.{Result, ok, from_ok, Result-cases, ◌>>=◌}
use tokenity.Serving.Control.{
  uint8, uint32, zeros, Wire, jaccl_control_words, jaccl_control_max_payload_bytes, EpochWords,
  is_empty, Control, frame, jaccl_control_header, is_well_formed, validate_jaccl_control_header,
  validate_jaccl_control_payload, shared_object, payload_of, Shared, share_object, take_object,
  receive_object, summed,
}

-- The words are what `int.from_bytes` makes of four bytes.
unfoldable pub AreWords : EpochWords → Type 0
AreWords e =
    (e.first < 4294967296)
    × (e.second < 4294967296)
    × (e.third < 4294967296)
    × (e.fourth < 4294967296)

module _ (W : Wire) where
  validate-frame :
      (e : EpochWords) (seq : ℕ) (p : List ℕ)
      → length p ≤ jaccl_control_max_payload_bytes
      → validate_jaccl_control_header W (frame W seq p e) seq e
        ≡ ok ((if is_empty p then 0 else 1), length p, (if is_empty p then 0 else W.crc32 p))
  unfolding validate_jaccl_control_header is_well_formed
  validate-frame e seq [] h = ground arith
  validate-frame e seq (x ∷ p) h = ground arith

  pub header-ok :
      (seq : ℕ) (p : List ℕ) (e : EpochWords) (h : List ℕ)
      → jaccl_control_header W seq p e ≡ ok h
      → (length p ≤ jaccl_control_max_payload_bytes) × (seq ≤ 4294967295) × (h ≡ frame W seq p e)
  unfolding jaccl_control_header
  header-ok seq p e h r = elim (Bool-cases (nat_beq seq 0 || ltb 4294967295 seq)) [
    | inl y ↦ absurd (ground (arith, rw y at r))
    | inr n ↦ elim (Bool-cases (ltb jaccl_control_max_payload_bytes (length p))) [
      | inl y ↦ absurd (ground (arith, rw (n, y) at r))
      | inr m ↦ (ground arith, ground arith, sym (ap (from_ok h) (rw (n, m) at r)))
    ]
  ]

  checksum_word : (p : List ℕ) → (if is_empty p then 0 else W.crc32 p) < 4294967296
  checksum_word [] = omega arith
  checksum_word (x ∷ p) = W.crc32_word (x ∷ p)

  type_word : (p : List ℕ) → (if is_empty p then 0 else 1) < 4294967296
  type_word [] = omega arith
  type_word (x ∷ p) = omega arith

  frame_words :
      (seq : ℕ) (p : List ℕ) (e : EpochWords)
      → AreWords e
      → length p ≤ jaccl_control_max_payload_bytes
      → seq ≤ 4294967295
      → All (λ x. x < 4294967296) (frame W seq p e)
  unfolding AreWords
  frame_words seq p e h l m =
      let (h1, h2, h3, h4) = h in
      let tail : All (λ x. x < 4294967296) (e.first ∷ e.second ∷ e.third ∷ e.fourth ∷ _ ∷ []) =
        (h1, (h2, (h3, (h4, (checksum_word p, tt))))) in
      (omega arith, (omega arith, (type_word p, (omega arith, (omega arith, tail)))))

  -- The header that another rank sees.
  pub summed-frame :
      (seq : ℕ) (p : List ℕ) (e : EpochWords) (others : ℕ)
      → AreWords e
      → length p ≤ jaccl_control_max_payload_bytes
      → seq ≤ 4294967295
      → summed W uint32 others (frame W seq p e) (zeros jaccl_control_words) ≡ frame W seq p e
  summed-frame seq p e others h l m =
      W.all_sum-silent uint32 (suc others) (frame W seq p e) (frame_words seq p e h l m)

  empty_nil : (p : List ℕ) → is_empty p ≡ true → p ≡ []
  empty_nil [] h = refl
  empty_nil (x ∷ p) h = absurd (ground arith)

  dumps_not_empty : (x : W.Object) → is_empty (W.dumps x) ≡ false
  dumps_not_empty x = elim (Bool-cases (is_empty (W.dumps x))) [
    | inl y ↦ absurd (W.dumps_nonempty x (empty_nil (W.dumps x) y))
    | inr n ↦ n
  ]

  valid_payload : (p : List ℕ) → validate_jaccl_control_payload W p (W.crc32 p) ≡ ok tt
  unfolding validate_jaccl_control_payload
  valid_payload p = ground arith

  receive-nothing :
      (e : EpochWords) (others : ℕ) (s : Control)
      → AreWords e
      → s.control_sequence + 1 ≤ 4294967295
      → receive_object W e
          (summed W uint32 others (frame W (s.control_sequence + 1) [] e))
          (summed W uint8 others [])
          s
        ≡ ok (record s { control_sequence = s.control_sequence + 1 }, none)
  unfolding receive_object
  receive-nothing e others s h m = rw (
    summed-frame (s.control_sequence + 1) [] e others h (omega arith) m,
    validate-frame e (s.control_sequence + 1) [] (omega arith),
  )

  receive-something :
      (e : EpochWords) (others : ℕ) (s : Control) (x : W.Object)
      → AreWords e
      → length (W.dumps x) ≤ jaccl_control_max_payload_bytes
      → s.control_sequence + 1 ≤ 4294967295
      → receive_object W e
          (summed W uint32 others (frame W (s.control_sequence + 1) (W.dumps x) e))
          (summed W uint8 others (W.dumps x))
          s
        ≡ take_object W (some x) (record s { control_sequence = s.control_sequence + 1 })
  unfolding receive_object
  receive-something e others s x h l m = rw (
    summed-frame (s.control_sequence + 1) (W.dumps x) e others h l m,
    validate-frame e (s.control_sequence + 1) (W.dumps x) l,
    dumps_not_empty x,
    W.all_sum-silent uint8 (suc others) (W.dumps x) (W.dumps_bytes x),
    valid_payload (W.dumps x),
    W.loads-dumps x,
  )

  pub share-ok :
      (e : EpochWords) (q : Bool) (o : Option W.Object) (s : Control) (sh : Shared W)
      → share_object W e q o s ≡ ok sh
      → (length (payload_of W (shared_object W (is_none o && q) o))
          ≤ jaccl_control_max_payload_bytes)
        × (s.control_sequence + 1 ≤ 4294967295)
        × (sh ≡ record {
          header =
              frame W
                (s.control_sequence + 1)
                (payload_of W (shared_object W (is_none o && q) o))
                e;
          payload = payload_of W (shared_object W (is_none o && q) o);
          control = record {
            control_sequence = s.control_sequence + 1;
            stopped = (is_none o && q) || s.stopped;
          };
          returned = if is_none o && q then none else o;
        })
  unfolding share_object
  share-ok e q o s sh r =
      elim (Result-cases (
        jaccl_control_header W (s.control_sequence + 1)
          (payload_of W (shared_object W (is_none o && q) o)) e)) [
            | inl (x, v) ↦ absurd (ground (arith, rw v at r))
            | inr (h, v) ↦
                let (l, m, f) = header-ok (s.control_sequence + 1) _ e h v in
                (l, m, sym (ap (from_ok sh) (rw (v, f) at r)))
          ]

  same_stop : W.equality.equal W.distributed_stop W.distributed_stop ≡ true
  same_stop = (W.equality.equal_iff W.distributed_stop W.distributed_stop).1 refl

  other_object :
      (x : W.Object)
      → some x ≢ some W.distributed_stop
      → W.equality.equal x W.distributed_stop ≡ false
  other_object x h = elim (Bool-cases (W.equality.equal x W.distributed_stop)) [
    | inl y ↦ absurd (h (ap (λ z. some z) ((W.equality.equal_iff x W.distributed_stop).0 y)))
    | inr n ↦ n
  ]

  -- What rank 0 shares, unless it is the object that stands for a stop itself, every other rank of the
  -- same instance receives that has made as many calls: it returns the same, request, nothing or stop,
  -- and both go on in the same state.
  pub receive-share :
      (e : EpochWords) (others : ℕ) (q : Bool) (o : Option W.Object) (s : Control) (sh : Shared W)
      → AreWords e
      → o ≢ some W.distributed_stop
      → share_object W e q o s ≡ ok sh
      → receive_object W e (summed W uint32 others sh.header) (summed W uint8 others sh.payload) s
        ≡ ok (sh.control, sh.returned)
  unfolding take_object
  receive-share e others false none s sh a n r =
      let (l, m, f) = share-ok e false none s sh r in rw (f, receive-nothing e others s a m)
  receive-share e others true none s sh a n r =
      let (l, m, f) = share-ok e true none s sh r in
      rw (f, receive-something e others s W.distributed_stop a l m, same_stop)
  receive-share e others q (some x) s sh a n r =
      let (l, m, f) = share-ok e q (some x) s sh r in
      rw (f, receive-something e others s x a l m, other_object x n)

  -- A run of `tokenity_share_object` on rank 0, and one on another rank; each call comes with whether
  -- a shutdown has been requested.
  unfoldable pub share_all :
      EpochWords → List (Bool × Option W.Object) → Control → Result (Control × List (Shared W))
  share_all e [] s = ok (s, [])
  share_all e ((q, o) ∷ calls) s = do
    sh ← share_object W e q o s
    (s', shs) ← share_all e calls sh.control
    ok (s', sh ∷ shs)

  unfoldable pub receive_all :
      EpochWords → ℕ → List (Shared W) → Control → Result (Control × List (Option W.Object))
  receive_all e others [] s = ok (s, [])
  receive_all e others (sh ∷ shs) s = do
    (s1, o) ←
        receive_object W e (summed W uint32 others sh.header) (summed W uint8 others sh.payload) s
    (s2, os) ← receive_all e others shs s1
    ok (s2, o ∷ os)

  -- In every run in which rank 0 raises nothing and is given no object that stands for a stop, every
  -- other rank of the same instance that starts in the same state receives what rank 0 returns, call
  -- by call, and ends in the same state, stopped or not.
  pub receive_all-share_all :
      (e : EpochWords) (others : ℕ) (calls : List (Bool × Option W.Object)) (s s' : Control)
      (shs : List (Shared W))
      → AreWords e
      → All (λ c. c.1 ≢ some W.distributed_stop) calls
      → share_all e calls s ≡ ok (s', shs)
      → receive_all e others shs s ≡ ok (s', map (λ sh. sh.returned) shs)
  unfolding share_all receive_all
  receive_all-share_all e others [] s s' shs a h r = rw (
    sym (ap (λ (m : Result (Control × List (Shared W))). (from_ok (s, []) m).1) r),
    sym (ap (λ (m : Result (Control × List (Shared W))). (from_ok (s, []) m).0) r),
  )
  receive_all-share_all e others ((q, o) ∷ calls) s s' shs a h r =
      elim (Result-cases (share_object W e q o s)) [
        | inl (x, v) ↦ absurd (ground (arith, rw v at r))
        | inr (sh, v) ↦ elim (Result-cases (share_all e calls sh.control)) [
          | inl (x, w) ↦ absurd (ground (arith, rw (v, w) at r))
          | inr ((s2, rest), w) ↦
              let r' = rw (v, w) at r in
              rw (
                sym (ap (λ (m : Result (Control × List (Shared W))). (from_ok (s, []) m).1) r'),
                sym (ap (λ (m : Result (Control × List (Shared W))). (from_ok (s, []) m).0) r'),
                receive-share e others q o s sh a h.0 v,
                receive_all-share_all e others calls sh.control s2 rest a h.1 w,
              )
        ]
      ]
