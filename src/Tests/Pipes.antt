-- ===== src/Tests/Pipes.antt =====
-- A stream that cuts what is written and read into pieces (src/util.c).
use tpm2_abrmd.Prelude.{
  ℕ, ◌+◌, ◌^◌, ◌≡◌, ◌≢◌, refl, List, [], ◌∷◌, ◌++◌, some, min, length, take, drop, length-take,
  if◌then◌else◌, leb, arith,
}
use tpm2_abrmd.Bytes.{get8, get32}
use tpm2_abrmd.Header.{get_command_size}
use tpm2_abrmd.Stream.{
  Streams, bytes, read_error, written, IsReader, IsWriter, IsBounded, RefusesHuge, HasIoErrors,
}
use tpm2_abrmd.Util.{read_tpm_buffer_alloc}
use tpm2_abrmd.Util.Frames.{IsMessage}
use tpm2_abrmd.Util.AllocEnds.{Finishes, read_tpm_buffer_alloc-Finishes}
use tpm2_abrmd.Util.Pipe.{send_all, receive_all, receive_all-send_all}
use tpm2_abrmd.Util.KeyValue.{KeyValue, parse_key_value_string}
use tpm2_abrmd.Util.KeyValue.Laws.{print, feed, IsWord, parse_key_value_string-print}

-- At most four bytes are read at a time, and none where too many are asked for.
abbrev pub piece : List ℕ → ℕ → ℕ
piece s n = min (min n 4) (length s)

abbrev pub pipe : Streams (List ℕ)
pipe = record {
  read = λ s n.
      if leb (2 ^ 63) n
      then (s, read_error 13)
      else (drop (piece s n) s, bytes (take (piece s n) s));
  write = λ s buf. (s ++ take (min 5 (length buf)) buf, written (min 5 (length buf)));
}

abbrev pub bytes_of : List ℕ → List ℕ
bytes_of s = s

pub pipe-IsReader : IsReader pipe bytes_of
pipe-IsReader = record {
  reads = λ s n h b k. record {
    k = piece s n;
    some_byte = omega arith;
    within = omega arith;
    there = omega arith;
    result = ground arith;
    rest = ground arith;
  };
}

pub pipe-IsWriter : IsWriter pipe bytes_of
pipe-IsWriter = record {
  writes = λ s buf h. record {
    k = min 5 (length buf);
    some_byte = omega arith;
    within = omega arith;
    result = refl;
    appended = refl;
  };
}

pub pipe-IsBounded : IsBounded pipe
pipe-IsBounded = record { read_within = λ s n. ground (arith, length-take (piece s n) s) }

pub pipe-RefusesHuge : RefusesHuge pipe
pipe-RefusesHuge = record { refuses = λ s n h. (13, ground arith) }

pub pipe-HasIoErrors : HasIoErrors pipe
pipe-HasIoErrors = record { small = λ s n code e. ground (arith, e) }

-- TPM2_GetRandom of 8 bytes, and TPM2_SelfTest
abbrev pub get_random : List ℕ
get_random = 0x80 ∷ 0x01 ∷ 0 ∷ 0 ∷ 0 ∷ 12 ∷ 0 ∷ 0 ∷ 0x01 ∷ 0x7b ∷ 0 ∷ 8 ∷ []

abbrev pub empty_command : List ℕ
empty_command = 0x80 ∷ 0x01 ∷ 0 ∷ 0 ∷ 0 ∷ 10 ∷ 0 ∷ 0 ∷ 0x01 ∷ 0x43 ∷ []

pub get_random-IsMessage : IsMessage get_random
unfolding get_command_size get32 get8
get_random-IsMessage = record { header = omega arith; bounded = omega arith; sized = refl }

pub empty_command-IsMessage : IsMessage empty_command
unfolding get_command_size get32 get8
empty_command-IsMessage = record { header = omega arith; bounded = omega arith; sized = refl }

abbrev two_messages : List (List ℕ)
two_messages = get_random ∷ empty_command ∷ []

receive_all-send_all_example :
    (sent s' : List ℕ) × (send_all pipe [] two_messages ≡ some sent)
    × (receive_all pipe 0xaa sent two_messages ≡ some (s', two_messages))
    × (bytes_of s' ≡ [])
receive_all-send_all_example =
    receive_all-send_all pipe bytes_of pipe-IsWriter pipe-IsReader 0xaa [] two_messages refl
      (get_random-IsMessage, (empty_command-IsMessage, tt))

read_tpm_buffer_alloc-Finishes_example :
    Finishes (read_tpm_buffer_alloc pipe 0xaa (take 7 get_random))
read_tpm_buffer_alloc-Finishes_example =
    read_tpm_buffer_alloc-Finishes pipe pipe-IsBounded pipe-HasIoErrors 0xaa (take 7 get_random)

-- a=b,c=d
abbrev two_pairs : List KeyValue
two_pairs =
    record { key = b'a' ∷ []; value = b'b' ∷ [] }
    ∷ record { key = b'c' ∷ []; value = b'd' ∷ [] }
    ∷ []

word : (c : ℕ) → (c ≢ b'=') → (c ≢ b',') → IsWord (c ∷ [])
word c h k = record {
  first = c;
  others = [];
  shape = refl;
  no_equals = (h, tt);
  no_comma = (k, tt);
}

-- Counts the pairs, and refuses the second.
abbrev counting : KeyValue → ℕ → ℕ × ℕ
counting kv n = (n + 1, n)

parse_key_value_string-print_example :
    parse_key_value_string counting (print two_pairs) 0 ≡ some (feed counting two_pairs 0)
parse_key_value_string-print_example = parse_key_value_string-print counting two_pairs 0 (
  (
    word b'a' (λ e. ground arith) (λ e. ground arith),
    word b'b' (λ e. ground arith) (λ e. ground arith),
  ),
  (
    (
      word b'c' (λ e. ground arith) (λ e. ground arith),
      word b'd' (λ e. ground arith) (λ e. ground arith),
    ),
    tt,
  ),
)
