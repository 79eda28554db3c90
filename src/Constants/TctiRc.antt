-- ===== src/Constants/TctiRc.antt =====
-- TSS2_TCTI_RC_* of tss2_common.h, the response codes of a TCTI, as the specification publishes them.
use Prim.Native.Nat.{ℕ}

abbrev pub general_failure : ℕ
general_failure = 0xa0001

abbrev pub bad_context : ℕ
bad_context = 0xa0003

abbrev pub bad_reference : ℕ
bad_reference = 0xa0005

abbrev pub insufficient_buffer : ℕ
insufficient_buffer = 0xa0006

abbrev pub bad_sequence : ℕ
bad_sequence = 0xa0007

abbrev pub no_connection : ℕ
no_connection = 0xa0008

abbrev pub try_again : ℕ
try_again = 0xa0009

abbrev pub io_error : ℕ
io_error = 0xa000a

abbrev pub bad_value : ℕ
bad_value = 0xa000b

abbrev pub malformed_response : ℕ
malformed_response = 0xa0011
