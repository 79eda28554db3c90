-- ===== src/Tcti/Init.antt =====
-- `init_tcti_data`, `tcti_tabrmd_connect` and `Tss2_Tcti_Tabrmd_Init` of src/tcti-tabrmd.c. The calls of
-- GDBus and of the socket functions of GIO are parameters; addresses are numbers, 0 for NULL.
use tpm2_abrmd.Prelude.{
  ℕ, List, [], ◌∷◌, Option, none, some, if◌then◌else◌, ltb, ◌==◌, length, replicate,
}
use tpm2_abrmd.Constants.TctiRc
use tpm2_abrmd.Constants.{tpm_header_size, rc_success}
use tpm2_abrmd.Tcti.{TabrmdContext, transmit, tabrmd_magic, tabrmd_version}
use tpm2_abrmd.Tcti.Conf.{TabrmdConf, BusType, bus_system, kv_callback}
use tpm2_abrmd.Util.KeyValue.{parse_key_value_string}

-- The answer to CreateConnection: none, or an id with the list of the file descriptors, which may be
-- missing. A descriptor that cannot be read is `none`.
pub data CreateResult : Type 0 where
  no_answer : CreateResult
  created : ℕ → Option (List (Option ℕ)) → CreateResult

pub record BusEnv : Type 0 where
  pub proxy_new : BusType → List ℕ → ℕ
  pub create_connection : ℕ → CreateResult
  -- g_socket_new_from_fd and g_socket_connection_factory_create_connection
  pub connection_of_fd : ℕ → ℕ
  -- sizeof (TSS2_TCTI_TABRMD_CONTEXT)
  pub context_size : ℕ
  -- TABRMD_DBUS_NAME_DEFAULT
  pub default_name : List ℕ

unfoldable pub init_tcti_data : TabrmdContext
init_tcti_data = record {
  magic = tabrmd_magic;
  version = tabrmd_version;
  id = 0;
  sock_connect = 0;
  proxy = 0;
  header = record { tag = 0; size = 0; code = 0 };
  state = transmit;
  index = 0;
  header_buf = replicate tpm_header_size 0;
}

-- The list holds the one descriptor that is expected.
unfoldable pub connect_fds : BusEnv → TabrmdContext → ℕ → List (Option ℕ) → TabrmdContext × ℕ
connect_fds env context id (some fd ∷ []) =
    (record context { sock_connect = env.connection_of_fd fd; id = id }, rc_success)
connect_fds env context id fds = (context, TctiRc.general_failure)

unfoldable pub connect_result : BusEnv → TabrmdContext → CreateResult → TabrmdContext × ℕ
unfolding connect_fds
connect_result env context no_answer = (context, TctiRc.no_connection)
connect_result env context (created id none) = (context, TctiRc.no_connection)
connect_result env context (created id (some fds)) = connect_fds env context id fds

unfoldable pub tcti_connect : BusEnv → TabrmdContext → TabrmdContext × ℕ
unfolding connect_result
tcti_connect env context = connect_result env context (env.create_connection context.proxy)

abbrev pub conf_string_max : ℕ
conf_string_max = 280

-- What a call of `Init` leaves: the context, the caller's size and the response code.
pub record Initialized : Type 0 where
  pub context : Option TabrmdContext
  pub size : Option ℕ
  pub rc : ℕ

-- With the configuration parsed, the context is filled in and the daemon called.
unfoldable pub open_connection : BusEnv → Option ℕ → TabrmdConf → Initialized
unfolding init_tcti_data tcti_connect
open_connection env size conf =
    let context = record init_tcti_data { proxy = env.proxy_new conf.bus_type conf.bus_name } in
    if context.proxy == 0
    then record { context = some context; size = size; rc = TctiRc.no_connection }
    else let (connected, rc) = tcti_connect env context in
      record { context = some connected; size = size; rc = rc }

unfoldable pub with_conf :
    BusEnv → TabrmdContext → Option ℕ → TabrmdConf → Option (List ℕ) → Option Initialized
unfolding open_connection
with_conf env context size conf none = some (open_connection env size conf)
with_conf env context size conf (some str) =
    if ltb conf_string_max (length str)
    then some (record { context = some context; size = size; rc = TctiRc.bad_value })
    else elim (parse_key_value_string kv_callback str conf) [
      | none ↦ none
      | some (conf', rc) ↦
          if rc == rc_success
          then some (open_connection env size conf')
          else some (record { context = some context; size = size; rc = rc })
    ]

-- Arguments that are NULL are `none`. The outer `none` means that the fuel of the parser ran out.
-- The copy of the string is taken to succeed.
unfoldable pub tcti_init :
    BusEnv → Option TabrmdContext → Option ℕ → Option (List ℕ) → Option Initialized
unfolding with_conf
tcti_init env none (some n) conf =
    some (record { context = none; size = some env.context_size; rc = rc_success })
tcti_init env context none conf =
    some (record { context = context; size = none; rc = TctiRc.bad_value })
tcti_init env (some context) (some n) conf =
    with_conf env context (some n) (record { bus_name = env.default_name; bus_type = bus_system })
      conf
