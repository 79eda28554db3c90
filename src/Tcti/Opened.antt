-- ===== src/Tcti/Opened.antt =====
-- What `Tss2_Tcti_Tabrmd_Init` of src/tcti-tabrmd.c leaves.
use tpm2_abrmd.Prelude.{ℕ, ◌≡◌, ◌≢◌, refl, true, List, [], ◌∷◌, Option, none, some, length, arith}
use native.Mathlib.Decide.{dec_lt, ℕ_discrete}
use tpm2_abrmd.Constants.TctiRc
use tpm2_abrmd.Constants.{rc_success}
use tpm2_abrmd.Util.KeyValue.Ends.{parse_key_value_string_ends}
use tpm2_abrmd.Tcti.{TabrmdContext, transmit, is_tabrmd}
use tpm2_abrmd.Tcti.Conf.{TabrmdConf, bus_system, kv_callback}
use tpm2_abrmd.Tcti.Init.{
  BusEnv, CreateResult, no_answer, created, init_tcti_data, connect_fds, connect_result,
  tcti_connect, conf_string_max, Initialized, open_connection, with_conf, tcti_init,
}

-- A context with which a client can send its first command.
pub record IsOpen (c : TabrmdContext) : Type 0 where
  pub ours : is_tabrmd c ≡ true
  pub ready : c.state ≡ transmit
  pub fresh : c.index ≡ 0
  pub room : length c.header_buf ≡ 10
  pub reached : c.proxy ≢ 0

connect-IsOpen :
    (env : BusEnv) (c : TabrmdContext) (r : CreateResult)
    → IsOpen c
    → IsOpen (connect_result env c r).0
unfolding connect_result connect_fds is_tabrmd
connect-IsOpen env c no_answer h = h
connect-IsOpen env c (created id none) h = h
connect-IsOpen env c (created id (some [])) h = h
connect-IsOpen env c (created id (some (none ∷ fds))) h = h
connect-IsOpen env c (created id (some (some fd ∷ []))) h = record {
  ours = h.ours;
  ready = h.ready;
  fresh = h.fresh;
  room = h.room;
  reached = h.reached;
}
connect-IsOpen env c (created id (some (some fd ∷ fd' ∷ fds))) h = h

-- The context before the daemon is called.
filled : BusEnv → TabrmdConf → TabrmdContext
unfolding init_tcti_data
filled env conf = record init_tcti_data { proxy = env.proxy_new conf.bus_type conf.bus_name }

filled-IsOpen :
    (env : BusEnv) (conf : TabrmdConf) → (filled env conf).proxy ≢ 0 → IsOpen (filled env conf)
unfolding filled init_tcti_data is_tabrmd
filled-IsOpen env conf h = record {
  ours = refl;
  ready = refl;
  fresh = refl;
  room = refl;
  reached = h;
}

-- How a call ends.
pub record Returns (o : Option Initialized) : Type 0 where
  pub value : Initialized
  pub result : o ≡ some value
  pub context : TabrmdContext
  pub given : value.context ≡ some context
  pub open_on_success : value.rc ≡ rc_success → IsOpen context

connection_lem :
    (env : BusEnv) (size : ℕ) (conf : TabrmdConf)
    → Returns (some (open_connection env (some size) conf))
unfolding open_connection filled tcti_connect
connection_lem env size conf = elim (ℕ_discrete (filled env conf).proxy 0) [
  | yes z ↦ record {
    value = record {
      context = some (filled env conf);
      size = some size;
      rc = TctiRc.no_connection;
    };
    result = ground (arith, z);
    context = filled env conf;
    given = refl;
    open_on_success = λ e. ground arith;
  }
  | no k ↦ record {
    value = record {
      context = some (tcti_connect env (filled env conf)).0;
      size = some size;
      rc = (tcti_connect env (filled env conf)).1;
    };
    result = ground arith;
    context = (tcti_connect env (filled env conf)).0;
    given = refl;
    open_on_success = λ e.
        connect-IsOpen env (filled env conf) (env.create_connection (filled env conf).proxy)
          (filled-IsOpen env conf k);
  }
]

refusal :
    {o : Option Initialized} (c : TabrmdContext) (size rc : ℕ)
    → rc ≢ rc_success
    → o ≡ some (record { context = some c; size = some size; rc = rc })
    → Returns o
refusal c size rc k e = record {
  value = record { context = some c; size = some size; rc = rc };
  result = e;
  context = c;
  given = refl;
  open_on_success = λ z. absurd (k z);
}

-- A call with a context and a size comes to an end, whatever the configuration string and the
-- answers of the daemon. Where it returns success, the context is one of this TCTI, with a proxy, in
-- the state TRANSMIT, with nothing received yet.
pub tcti_init-Returns :
    (env : BusEnv) (c : TabrmdContext) (size : ℕ) (conf : Option (List ℕ))
    → Returns (tcti_init env (some c) (some size) conf)
unfolding tcti_init with_conf
tcti_init-Returns env c size none =
    connection_lem env size (record { bus_name = env.default_name; bus_type = bus_system })
tcti_init-Returns env c size (some str) =
    let conf : TabrmdConf = record { bus_name = env.default_name; bus_type = bus_system } in
    let (r, e) = parse_key_value_string_ends kv_callback str conf in
    elim (dec_lt conf_string_max (length str)) [
      | yes long ↦ refusal c size TctiRc.bad_value (λ z. ground arith) (ground arith)
      | no fits ↦ elim (ℕ_discrete r.1 rc_success) [
        | no failed ↦ refusal c size r.1 failed (ground (arith, e))
        | yes done ↦
            let v = connection_lem env size r.0 in
            record {
              value = v.value;
              result = ground (arith, e, done, v.result);
              context = v.context;
              given = v.given;
              open_on_success = v.open_on_success;
            }
      ]
    ]
