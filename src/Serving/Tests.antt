-- ===== src/Serving/Tests.antt =====
-- Two kinds of message, sums computed word by word, and a checksum that adds up the bytes.
use tokenity.Common.{
  ℕ, zero, suc, ◌+◌, ◌%◌, ◌<◌, ◌≡◌, ◌≢◌, refl, ap, ap₂, ◌∙◌, ◌↔◌, Bool, true, false, if◌then◌else◌,
  nat_beq, length, List, [], ◌∷◌, All, map, Option, none, some, sum, arith, inl, not,
}
use tokenity.Serving.Load.{
  LoadEvalPolicy, parameter_eval_chunks, chunks_from, exceeds, exceeds_byte_limit,
}
use tokenity.Serving.Load.Chunks.{Fits, concat, parameter_eval_chunks-Fits}
use native.Mathlib.Nat.{mod-lt}
use tokenity.Errors.{from_ok, ok, err, runtime_error}
use tokenity.Serving.Control.{
  Dtype, uint8, uint32, bound, zeros, silent, Wire, EpochWords, Control, Shared, share_object,
  receive_object, summed, jaccl_control_header,
}
use tokenity.Serving.Control.Agreement.{AreWords, share_all, receive_all, receive_all-share_all}
use tokenity.Serving.Control.Refusal.{receive-foreign}

data Message : Type 0 where
  stop_sign request : Message

-- a test of the constructor
abbrev is_stop : Message → Bool
is_stop stop_sign = true
is_stop request = false

abbrev same : Message → Message → Bool
same stop_sign m = is_stop m
same request m = not (is_stop m)

same_iff : (x y : Message) → (same x y ≡ true) ↔ (x ≡ y)
same_iff stop_sign stop_sign = (λ h. refl, λ h. refl)
same_iff stop_sign request =
    (λ h. absurd (ground (arith, h)), λ h. absurd (ground (arith, ap is_stop h)))
same_iff request stop_sign =
    (λ h. absurd (ground (arith, h)), λ h. absurd (ground (arith, ap is_stop h)))
same_iff request request = (λ h. refl, λ h. refl)

abbrev code : Message → ℕ
code stop_sign = 128
code request = 7

abbrev decode : List ℕ → Option Message
decode (b ∷ []) =
    if nat_beq b 128 then some stop_sign else if nat_beq b 7 then some request else none
decode _ = none

abbrev added : Dtype → List ℕ → List ℕ → List ℕ
added t (x ∷ xs) (y ∷ ys) = ((x + y) % bound t) ∷ added t xs ys
added t _ _ = []

abbrev added_all : Dtype → List ℕ → List (List ℕ) → List ℕ
added_all t v [] = v
added_all t v (w ∷ ws) = added_all t (added t v w) ws

abbrev total : Dtype → List (List ℕ) → List ℕ
total t [] = []
total t (v ∷ vs) = added_all t v vs

added-zeros : (t : Dtype) (v : List ℕ) → All (λ x. x < bound t) v → added t v (zeros (length v)) ≡ v
added-zeros t [] h = refl
added-zeros uint8 (x ∷ v) h = ap₂ (λ y ys. y ∷ ys) (omega arith) (added-zeros uint8 v h.1)
added-zeros uint32 (x ∷ v) h = ap₂ (λ y ys. y ∷ ys) (omega arith) (added-zeros uint32 v h.1)

total-silent :
    (t : Dtype) (n : ℕ) (v : List ℕ)
    → All (λ x. x < bound t) v
    → total t (v ∷ silent n (length v)) ≡ v
total-silent t zero v h = refl
total-silent t (suc n) v h =
    ap (λ w. added_all t w (silent n (length v))) (added-zeros t v h) ∙ total-silent t n v h

code_byte : (m : Message) → code m < 256
code_byte stop_sign = omega arith
code_byte request = omega arith

code_nonempty : (m : Message) → code m ∷ [] ≢ []
code_nonempty m h = ground (arith, ap (λ (p : List ℕ). length p) h)

decode-code : (m : Message) → decode (code m ∷ []) ≡ some m
decode-code stop_sign = refl
decode-code request = refl

abbrev wire : Wire
wire = record {
  Object = Message;
  equality = record { equal = same; equal_iff = same_iff };
  distributed_stop = stop_sign;
  dumps = λ m. code m ∷ [];
  loads = decode;
  crc32 = λ p. sum p % 4294967296;
  all_sum = total;
  loads-dumps = decode-code;
  dumps_nonempty = code_nonempty;
  dumps_bytes = λ m. (code_byte m, tt);
  crc32_word = λ p. mod-lt (sum p) (omega arith);
  all_sum-silent = total-silent;
}

abbrev epoch : EpochWords
epoch = record { first = 11; second = 12; third = 13; fourth = 4294967295 }

abbrev other_epoch : EpochWords
other_epoch = record epoch { fourth = 14 }

abbrev begun : Control
begun = record { control_sequence = 4; stopped = false }

abbrev calls : List (Bool × Option Message)
calls = (false, some request) ∷ (false, none) ∷ (true, some request) ∷ (true, none) ∷ []

epoch-AreWords : AreWords epoch
unfolding AreWords
epoch-AreWords = (omega arith, omega arith, omega arith, omega arith)

other_epoch-AreWords : AreWords other_epoch
unfolding AreWords
other_epoch-AreWords = (omega arith, omega arith, omega arith, omega arith)

is_some_stop : Option Message → Bool
is_some_stop (some stop_sign) = true
is_some_stop _ = false

request_no_stop : some request ≢ some stop_sign
unfolding is_some_stop
request_no_stop h = ground (arith, ap is_some_stop h)

none_no_stop : ◌≢◌ {A = Option Message} none (some stop_sign)
unfolding is_some_stop
none_no_stop h = ground (arith, ap is_some_stop h)

abbrev shared : Control × List (Shared wire)
unfolding share_all share_object jaccl_control_header
shared = from_ok (begun, []) (share_all wire epoch calls begun)

receive_all-share_all_example :
    receive_all wire epoch 2 shared.1 begun ≡ ok (shared.0, map (λ sh. sh.returned) shared.1)
unfolding share_all share_object jaccl_control_header
receive_all-share_all_example =
    receive_all-share_all wire epoch 2 calls begun shared.0 shared.1 epoch-AreWords
      (request_no_stop, (none_no_stop, (request_no_stop, (none_no_stop, tt)))) refl

-- The last call stops every rank; the one before returns a request in spite of the shutdown.
stops :
    (shared.0.stopped ≡ true)
    × (map (λ sh. sh.returned) shared.1 ≡ some request ∷ none ∷ some request ∷ none ∷ [])
unfolding share_all share_object jaccl_control_header
stops = (refl, refl)

abbrev foreign : Shared wire
foreign =
    from_ok (record { header = []; payload = []; control = begun; returned = none })
      (share_object wire other_epoch false (some request) begun)

receive-foreign_example :
    receive_object wire epoch
      (summed wire uint32 2 foreign.header)
      (summed wire uint8 2 foreign.payload)
      begun
    ≡ err runtime_error
unfolding share_object jaccl_control_header
receive-foreign_example =
    receive-foreign wire epoch other_epoch 2 false (some request) begun begun foreign
      (summed wire uint8 2 foreign.payload) other_epoch-AreWords
      (inl (λ h. ground (arith, ap (λ (e : EpochWords). e.fourth) h))) refl

-- Five parameters by their sizes; one has none, one is larger than the target alone.
abbrev parameters : List (Option ℕ)
parameters = some 3 ∷ some 4 ∷ none ∷ some 20 ∷ some 1 ∷ []

abbrev policy : LoadEvalPolicy
policy = record { max_leaves = 2; target_bytes = some 10 }

parameter_eval_chunks-Fits_example :
    (concat (Option ℕ) (λ p. p) (parameter_eval_chunks (Option ℕ) (λ p. p) parameters policy)
      ≡ parameters)
    × All
        (Fits (Option ℕ) (λ p. p) policy)
        (parameter_eval_chunks (Option ℕ) (λ p. p) parameters policy)
parameter_eval_chunks-Fits_example =
    parameter_eval_chunks-Fits (Option ℕ) (λ p. p) parameters policy (omega arith)

groups :
    parameter_eval_chunks (Option ℕ) (λ p. p) parameters policy
    ≡ (some 3 ∷ some 4 ∷ []) ∷ (none ∷ []) ∷ (some 20 ∷ []) ∷ (some 1 ∷ []) ∷ []
unfolding parameter_eval_chunks chunks_from exceeds exceeds_byte_limit
groups = refl
