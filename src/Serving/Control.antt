-- ===== src/Serving/Control.antt =====
-- The control messages of tokenity/serving/distributed_openai.py: rank 0 shares each request with the
-- other ranks, as a header of ten words and a payload, and each of them checks both.
--
-- The sum over the ranks, the pickles and the checksum are the argument `Wire`. A byte and a word
-- are natural numbers; the header's array of 32 bits holds them as its checks bound them.

pub mod Agreement
pub mod Refusal
use tokenity.Common.{
  ℕ, zero, suc, ◌+◌, ◌≤◌, ◌<◌, ◌≡◌, ◌≢◌, Bool, true, false, if◌then◌else◌, ◌&&◌, ◌||◌, not, leb,
  ltb, nat_beq, Eq, ◌==◌, length, List, [], ◌∷◌, ◌++◌, All, Option, none, some, is_none,
}
use tokenity.Errors.{Result, ok, err, runtime_error, ◌>>=◌, ◌>>◌, raise_if}

pub data Dtype : Type 0 where
  uint8 uint32 : Dtype

-- One above the greatest number of a type.
abbrev pub bound : Dtype → ℕ
bound uint8 = 256
bound uint32 = 4294967296

abbrev pub zeros : ℕ → List ℕ
zeros zero = []
zeros (suc n) = 0 ∷ zeros n

abbrev pub silent : ℕ → ℕ → List (List ℕ)
silent zero size = []
silent (suc n) size = zeros size ∷ silent n size

-- The sum of arrays over the ranks, `pickle` and `zlib.crc32`. A sum in which one rank alone is not
-- zero is its array; a pickle is made of bytes, at least one, and is read back.
pub record Wire : Type 1 where
  pub Object : Type 0
  pub equality : Eq Object
  pub distributed_stop : Object
  pub dumps : Object → List ℕ
  pub loads : List ℕ → Option Object
  pub crc32 : List ℕ → ℕ
  pub all_sum : Dtype → List (List ℕ) → List ℕ
  pub loads-dumps : (x : Object) → loads (dumps x) ≡ some x
  pub dumps_nonempty : (x : Object) → dumps x ≢ []
  pub dumps_bytes : (x : Object) → All (λ b. b < 256) (dumps x)
  pub crc32_word : (p : List ℕ) → crc32 p < 4294967296
  pub all_sum-silent :
      (t : Dtype) (n : ℕ) (v : List ℕ)
      → All (λ x. x < bound t) v
      → all_sum t (v ∷ silent n (length v)) ≡ v

-- `_JACCL_CONTROL_MAGIC`
abbrev pub jaccl_control_magic : ℕ
jaccl_control_magic = 1414482766

-- `_JACCL_CONTROL_VERSION`
abbrev pub jaccl_control_version : ℕ
jaccl_control_version = 1

-- `_JACCL_CONTROL_WORDS`
abbrev pub jaccl_control_words : ℕ
jaccl_control_words = 10

-- `_JACCL_CONTROL_MAX_PAYLOAD_BYTES`
abbrev pub jaccl_control_max_payload_bytes : ℕ
jaccl_control_max_payload_bytes = 67108864

pub record EpochWords : Type 0 where
  pub first : ℕ
  pub second : ℕ
  pub third : ℕ
  pub fourth : ℕ

abbrev pub is_epoch : EpochWords → ℕ → ℕ → ℕ → ℕ → Bool
is_epoch e a b c d =
    nat_beq a e.first && nat_beq b e.second && nat_beq c e.third && nat_beq d e.fourth

abbrev pub is_empty : List ℕ → Bool
is_empty [] = true
is_empty (x ∷ xs) = false

-- What a rank keeps between the calls: `_tokenity_control_sequence` and `_stop`.
pub record Control : Type 0 where
  pub control_sequence : ℕ
  pub stopped : Bool

module _ (W : Wire) where
  abbrev pub frame : ℕ → List ℕ → EpochWords → List ℕ
  frame sequence payload e =
      jaccl_control_magic
      ∷ jaccl_control_version
      ∷ (if is_empty payload then 0 else 1)
      ∷ sequence
      ∷ length payload
      ∷ e.first
      ∷ e.second
      ∷ e.third
      ∷ e.fourth
      ∷ (if is_empty payload then 0 else W.crc32 payload)
      ∷ []

  -- `_jaccl_control_header`
  unfoldable pub jaccl_control_header : ℕ → List ℕ → EpochWords → Result (List ℕ)
  jaccl_control_header sequence payload e = do
    raise_if (nat_beq sequence 0 || ltb 4294967295 sequence) runtime_error
    raise_if (ltb jaccl_control_max_payload_bytes (length payload)) runtime_error
    ok (frame sequence payload e)

  -- Does a header of ten words have no mismatch?
  unfoldable pub is_well_formed : EpochWords → ℕ → ℕ → ℕ → ℕ → ℕ → ℕ → ℕ → ℕ → ℕ → ℕ → ℕ → Bool
  is_well_formed e expected magic version message_type sequence size a b c d checksum =
      nat_beq magic jaccl_control_magic
      && nat_beq version jaccl_control_version
      && leb message_type 1
      && nat_beq sequence expected
      && is_epoch e a b c d
      && leb size jaccl_control_max_payload_bytes
      && not (nat_beq message_type 0 && not (nat_beq size 0 && nat_beq checksum 0))
      && not (nat_beq message_type 1 && nat_beq size 0)

  -- `_validate_jaccl_control_header`: the kind of message, the size and the checksum
  unfoldable pub validate_jaccl_control_header : List ℕ → ℕ → EpochWords → Result (ℕ × ℕ × ℕ)
  unfolding is_well_formed
  validate_jaccl_control_header
        (magic ∷ version ∷ message_type ∷ sequence ∷ size ∷ a ∷ b ∷ c ∷ d ∷ checksum ∷ []) expected
        e =
      do
        raise_if
            (not
              (is_well_formed e expected magic version message_type sequence size a b c d checksum))
            runtime_error
        ok (message_type, size, checksum)
  validate_jaccl_control_header _ expected e = err runtime_error

  -- `_validate_jaccl_control_payload`
  unfoldable pub validate_jaccl_control_payload : List ℕ → ℕ → Result (Unit {0})
  validate_jaccl_control_payload payload expected =
      raise_if (not (nat_beq (W.crc32 payload) expected)) runtime_error

  -- `shared_object` of rank 0
  abbrev pub shared_object : Bool → Option W.Object → Option W.Object
  shared_object coordinated_stop object =
      if coordinated_stop then some W.distributed_stop else object

  abbrev pub payload_of : Option W.Object → List ℕ
  payload_of none = []
  payload_of (some x) = W.dumps x

  -- What rank 0 adds to the two sums, and how it goes on.
  pub record Shared : Type 0 where
    pub header : List ℕ
    pub payload : List ℕ
    pub control : Control
    pub returned : Option W.Object

  -- `tokenity_share_object` on rank 0
  unfoldable pub share_object : EpochWords → Bool → Option W.Object → Control → Result Shared
  share_object e shutdown_requested object s =
      let coordinated_stop = is_none object && shutdown_requested in
      let payload = payload_of (shared_object coordinated_stop object) in
      do
        header ← jaccl_control_header (s.control_sequence + 1) payload e
        ok (record {
          header = header;
          payload = payload;
          control = record {
            control_sequence = s.control_sequence + 1;
            stopped = coordinated_stop || s.stopped;
          };
          returned = if coordinated_stop then none else object;
        })

  -- The end of `tokenity_share_object` on the other ranks: the object that the payload holds.
  unfoldable pub take_object : Option W.Object → Control → Result (Control × Option W.Object)
  take_object none s = err runtime_error
  take_object (some x) s =
      if W.equality.equal x W.distributed_stop
      then ok (record s { stopped = true }, none)
      else ok (s, some x)

  -- `tokenity_share_object` on the other ranks; the two functions take a rank's own array to the
  -- sum over all ranks.
  unfoldable pub receive_object :
      EpochWords
      → (List ℕ → List ℕ)
      → (List ℕ → List ℕ)
      → Control
      → Result (Control × Option W.Object)
  receive_object e sum_control sum_data s = do
    (message_type, size, checksum) ←
        validate_jaccl_control_header (sum_control (zeros jaccl_control_words))
          (s.control_sequence + 1) e
    let s' = record s { control_sequence = s.control_sequence + 1 }
    let payload = sum_data (zeros size)
    if nat_beq message_type 0
        then ok (s', none)
        else (validate_jaccl_control_payload payload checksum >> take_object (W.loads payload) s')

  -- The sums that one rank sees where rank 0 adds `v` and `others` further ranks add zeros.
  abbrev pub summed : Dtype → ℕ → List ℕ → List ℕ → List ℕ
  summed t others v own = W.all_sum t (v ∷ own ∷ silent others (length v))
