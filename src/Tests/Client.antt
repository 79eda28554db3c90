-- ===== src/Tests/Client.antt =====
-- A client over a stream that cuts the responses into pieces (src/tcti-tabrmd.c).
use tpm2_abrmd.Prelude.{ℕ, ◌+◌, ◌≡◌, refl, true, false, List, [], ◌∷◌, some, replicate, arith}
use tpm2_abrmd.Prelude.Int.{pos}
use tpm2_abrmd.Constants.TctiRc
use tpm2_abrmd.Util.{write_all, write_from}
use tpm2_abrmd.Bytes.{memcpy, get8, get16, get32}
use tpm2_abrmd.Header.{get_response_tag, get_response_size, get_response_code}
use tpm2_abrmd.Tcti.{
  TabrmdContext, TabrmdState, final, receive, transmit, ClientEnv, ready, answered, is_tabrmd,
  tabrmd_magic, tabrmd_version, tcti_finalize, tcti_transmit, tcti_cancel, tcti_set_locality,
  gerror_code_to_tcti_rc,
}
use tpm2_abrmd.Tcti.Receive.{
  tcti_receive, is_below_block, receive_guard, tcti_read, receive_header, receive_body,
}
use tpm2_abrmd.Tcti.States.{Move, call_of, tcti_receive-Move}
use tpm2_abrmd.Tcti.Balance.{
  Request, to_transmit, to_receive, to_cancel, to_set_locality, Log, perform, run, IsBalanced,
  run-IsBalanced,
}
use tpm2_abrmd.Tcti.Closed.{run-finalize}
use tpm2_abrmd.Tcti.Stuck.{malformed_is_stuck}
use tpm2_abrmd.Tcti.Progress.Piece.{IsReady}
use tpm2_abrmd.Tcti.Progress.Step.{IsResponse}
use tpm2_abrmd.Tcti.Progress.Until.{Ended, receive_until, receive_until_lem}
use tpm2_abrmd.Tcti.Init.{BusEnv, created, tcti_init}
use tpm2_abrmd.Tcti.Opened.{Returns, tcti_init-Returns}
use tpm2_abrmd.Tests.Pipes.{pipe, bytes_of, pipe-IsReader, pipe-RefusesHuge, get_random}

abbrev client : ClientEnv (List ℕ)
client = record {
  streams = pipe;
  poll = λ s t. (s, ready);
  call_cancel = λ s id. (s, answered 0);
  call_set_locality = λ s id l. (s, answered 0);
}

abbrev context_in : TabrmdState → TabrmdContext
context_in state = record {
  magic = tabrmd_magic;
  version = tabrmd_version;
  id = 5;
  sock_connect = 1;
  proxy = 2;
  header = record { tag = 0; size = 0; code = 0 };
  state = state;
  index = 0;
  header_buf = replicate 10 0;
}

-- A response of 12 bytes
abbrev answer : List ℕ
answer = 0x80 ∷ 0x01 ∷ 0 ∷ 0 ∷ 0 ∷ 12 ∷ 0 ∷ 0 ∷ 0 ∷ 0 ∷ 7 ∷ 9 ∷ []

answer-IsResponse : IsResponse answer
unfolding get_response_size get32 get8
answer-IsResponse = record { header = omega arith; bounded = omega arith; sized = refl }

always_ready : IsReady client bytes_of
always_ready = record { is_ready = λ s t. refl; keeps = λ s t. refl }

ours : is_tabrmd (context_in receive) ≡ true
unfolding is_tabrmd
ours = refl

waits : is_below_block (pos 0) ≡ false
unfolding is_below_block
waits = refl

receive_until_lem_example :
    Ended client bytes_of always_ready pipe-IsReader answer [] answer-IsResponse 16
      (pos 0)
      (omega arith)
      waits
      (receive_until client 16 (pos 0) 13 (context_in receive) answer (replicate 16 0))
receive_until_lem_example =
    receive_until_lem client bytes_of always_ready pipe-IsReader answer [] answer-IsResponse 16
      (pos 0) (omega arith) waits (context_in receive) answer (replicate 16 0) ours refl refl refl
      (omega arith) refl

tcti_receive-Move_example :
    Move receive
      (tcti_receive client (context_in receive) answer 16 (some (replicate 16 0)) (pos 0)).rc
      (tcti_receive client
        (context_in receive)
        answer
        16
        (some (replicate 16 0))
        (pos 0)).context.state
      (call_of (some (replicate 16 0)))
tcti_receive-Move_example =
    tcti_receive-Move client (context_in receive) answer 16 (some (replicate 16 0)) (pos 0)

abbrev no_runs : Log (List ℕ)
no_runs = record { context = context_in transmit; stream = []; sent = 0; taken = 0 }

-- A locality, a command, and a cancellation
abbrev requests : List Request
requests = to_set_locality 3 ∷ to_transmit 12 (some get_random) ∷ to_cancel ∷ []

abbrev after_requests : Log (List ℕ)
after_requests = record { context = context_in receive; stream = get_random; sent = 1; taken = 0 }

requests_lem : run client no_runs requests ≡ some after_requests
unfolding run perform tcti_transmit write_all write_from tcti_cancel tcti_set_locality
requests_lem = refl

run-IsBalanced_example : IsBalanced receive 1 0
run-IsBalanced_example = run-IsBalanced client requests no_runs refl requests_lem

abbrev closed : TabrmdContext
closed = record (context_in receive) { state = final; sock_connect = 0; proxy = 0 }

abbrev after_closing : Log (List ℕ)
after_closing = record { context = closed; stream = []; sent = 4; taken = 3 }

closed_requests :
    run client
      (record {
        context = (tcti_finalize client (context_in receive) []).0;
        stream = [];
        sent = 4;
        taken = 3;
      })
      requests
    ≡ some after_closing
unfolding run perform tcti_finalize tcti_transmit write_all write_from tcti_cancel tcti_set_locality
closed_requests = refl

run-finalize_example :
    (after_closing.context.state ≡ final) × (after_closing.sent ≡ 4) × (after_closing.taken ≡ 3)
run-finalize_example = run-finalize client requests (context_in receive) [] 4 3 closed_requests

-- Eight bytes of a header have come; its size field is 4.
abbrev nearly : TabrmdContext
nearly = record (context_in receive) {
  index = 8;
  header_buf = 0x80 ∷ 0x01 ∷ 0 ∷ 0 ∷ 0 ∷ 4 ∷ 0 ∷ 0 ∷ 0 ∷ 0 ∷ [];
}

malformed :
    (tcti_receive client nearly (0 ∷ 0 ∷ []) 16 (some (replicate 16 0)) (pos 0)).rc
    ≡ TctiRc.malformed_response
unfolding tcti_receive receive_guard tcti_read receive_header get_response_tag get_response_size
    get_response_code get8 get16 get32 memcpy
malformed = refl

abbrev later : List Request
later = to_transmit 12 (some get_random) ∷ to_receive 16 (some (replicate 16 0)) (pos 0) ∷ []

abbrev after_later : Log (List ℕ)
after_later = record {
  context = record nearly { index = 10; header = record { tag = 0x8001; size = 4; code = 0 } };
  stream = get_random;
  sent = 1;
  taken = 0;
}

later_lem :
    run client
      (record {
        context =
            (tcti_receive client nearly (0 ∷ 0 ∷ []) 16 (some (replicate 16 0)) (pos 0)).context;
        stream =
            (tcti_receive client nearly (0 ∷ 0 ∷ []) 16 (some (replicate 16 0)) (pos 0)).stream;
        sent = 0;
        taken = 0;
      })
      later
    ≡ some after_later
unfolding run perform tcti_transmit write_all write_from tcti_receive receive_guard tcti_read
    receive_header receive_body get_response_tag get_response_size get_response_code get8 get16
    get32 memcpy gerror_code_to_tcti_rc
later_lem = refl

malformed_is_stuck_example : after_later.taken ≡ 0
malformed_is_stuck_example =
    malformed_is_stuck client pipe-RefusesHuge nearly (0 ∷ 0 ∷ []) 16 (some (replicate 16 0))
      (pos 0) malformed later 0 0 later_lem

-- A bus on which the daemon answers.
abbrev bus : BusEnv
bus = record {
  proxy_new = λ type name. 2;
  create_connection = λ proxy. created 5 (some (some 4 ∷ []));
  connection_of_fd = λ fd. fd + 1;
  context_size = 120;
  default_name = [];
}

tcti_init-Returns_example :
    Returns (tcti_init bus (some (context_in final)) (some 120) (some (b'a' ∷ b'=' ∷ b'b' ∷ [])))
tcti_init-Returns_example =
    tcti_init-Returns bus (context_in final) 120 (some (b'a' ∷ b'=' ∷ b'b' ∷ []))
