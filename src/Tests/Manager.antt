-- ===== src/Tests/Manager.antt =====
-- The resource manager with a client that flushes an object, lists its objects, asks for a session of
-- another client, and asks the TPM for a capability (src/resource-manager.c).
use tpm2_abrmd.Prelude.{
  ℕ, ◌+◌, true, List, [], ◌∷◌, none, some, if◌then◌else◌, ◌==◌, ltb, ◌≡◌, ◌⊎◌, false, refl, arith,
  take, length,
}
use tpm2_abrmd.Constants.{rc_success}
use tpm2_abrmd.Mu.{network_mu}
use tpm2_abrmd.Table.{lookup}
use tpm2_abrmd.HandleMap.{HandleMap, handle_map_get_keys, handle_map_vlookup, handle_map_remove}
use tpm2_abrmd.SessionEntry.{SessionEntry, saved_rm}
use tpm2_abrmd.SessionList.{session_list_lookup_handle}
use tpm2_abrmd.Bytes.{get8, get16, get32}
use tpm2_abrmd.Header.{get_command_code, get_command_tag}
use tpm2_abrmd.Command.{
  Tpm2Command, command_get_code, command_get_flush_handle, command_has_auths, command_get_tag,
}
use tpm2_abrmd.Response.{Tpm2Response, response_new_rc}
use tpm2_abrmd.Tpm2.{Env, Tpm2, other_data}
use tpm2_abrmd.ResourceManager.State.{
  ResMgr, Message, response, ◌>>=◌, return, gets, on_map, sink_enqueue, foreach_from,
  session_list_foreach, entry_at,
}
use tpm2_abrmd.ResourceManager.Load.{load_session_from_handle}
use tpm2_abrmd.ResourceManager.Save.{post_process_loaded_transients, for_each}
use tpm2_abrmd.ResourceManager.Special.{flush_transient, flush_context, quota_check}
use tpm2_abrmd.ResourceManager.Capability.{get_cap_handles}
use tpm2_abrmd.ResourceManager.Process.{
  command_special_processing, answer_or_send, execute, finish, process_tpm2_command,
}
use tpm2_abrmd.ResourceManager.Isolation.{
  process_tpm2_command-delivers, process_tpm2_command-isolates,
}
use tpm2_abrmd.ResourceManager.Refusals.{IsLoadable, load_session_from_handle-refuses}
use tpm2_abrmd.ResourceManager.Faults.{IsForwarded, IsTurnedDown, process_get_capability_cases}
use tpm2_abrmd.ResourceManager.Limits.{IsLater, process_tpm2_command-IsLater}
use tpm2_abrmd.ResourceManager.Listing.{at_least, get_cap_handles_lem}

-- The answer TPM_RC_VALUE
abbrev refusal : List ℕ
refusal = 0x80 ∷ 0x01 ∷ 0 ∷ 0 ∷ 0 ∷ 10 ∷ 0 ∷ 0 ∷ 0 ∷ 0x84 ∷ []

-- A TPM that refuses every command, and counts them.
abbrev pub refusing : Env ℕ
refusing = record {
  mu = network_mu;
  unmarshal_context = λ buf size o. (1, 0);
  unmarshal_capability = λ buf size o. (1, other_data 0 []);
  marshal_capability = λ d buf size o. (1, buf);
  list_sort = λ f l. l;
  transmit = λ s n buf. (s + 1, 0);
  receive = λ s n. (s, 0, refusal);
  sys_context_load = λ s c. (s, 1, 0);
  sys_context_save = λ s h. (s, 1, []);
  sys_flush_context = λ s h. (s, 1);
}

abbrev chip : Tpm2 ℕ
chip = record { device = 0; properties_fixed = (0x11f, 4096) ∷ []; initialized = true }

-- Two objects of connection 7
abbrev objects_of_7 : HandleMap
objects_of_7 = record {
  handle_type = 0x80;
  handle_count = 0x101;
  vhandle_to_entry_table = (0x800000ff, 5) ∷ (0x80000100, 6) ∷ [];
  max_entries = 27;
}

-- A session of connection 8
abbrev session_of_8 : SessionEntry
session_of_8 = record {
  connection = 8;
  state = saved_rm;
  handle = 0x02000000;
  context = record { size = 0; buf = [] };
  context_client = record { size = 0; buf = [] };
}

abbrev no_map : HandleMap
no_map = record {
  handle_type = 0x80;
  handle_count = 0xff;
  vhandle_to_entry_table = [];
  max_entries = 27;
}

abbrev daemon : List ℕ → (ℕ → HandleMap) → List Message → ResMgr ℕ
daemon sessions maps messages = record {
  tpm2 = chip;
  session_list = record {
    objects = λ a. session_of_8;
    abandoned_queue = [];
    max_abandoned = 4;
    max_per_connection = 4;
    session_entry_list = sessions;
  };
  trans_map = maps;
  map_entries = λ a. record { phandle = 0; vhandle = 0; context = [] };
  next_address = 10;
  size_buf_max = 0;
  sent = messages;
}

abbrev maps_before : ℕ → HandleMap
maps_before d = if d == 7 then objects_of_7 else no_map

abbrev before : ResMgr ℕ
before = daemon [] maps_before []

-- TPM2_FlushContext of the object 0x800000ff, from connection 7
abbrev flush_object : Tpm2Command
flush_object = record {
  connection = 7;
  attributes = 0x165;
  buffer = 0x80 ∷ 0x01 ∷ 0 ∷ 0 ∷ 0 ∷ 14 ∷ 0 ∷ 0 ∷ 0x01 ∷ 0x65 ∷ 0x80 ∷ 0 ∷ 0 ∷ 0xff ∷ [];
  buffer_size = 14;
}

abbrev after : ResMgr ℕ
after =
    daemon []
      (λ d. if d == 7 then (handle_map_remove (maps_before 7) 0x800000ff).0 else maps_before d)
      (response (response_new_rc 7 rc_success) ∷ [])

flushed : process_tpm2_command refusing flush_object before ≡ some (tt, after)
unfolding process_tpm2_command quota_check command_get_code get_command_code get32 get8 execute
    command_special_processing flush_context command_get_flush_handle flush_transient
    handle_map_vlookup lookup answer_or_send finish sink_enqueue session_list_foreach foreach_from
    post_process_loaded_transients for_each on_map return gets ◌>>=◌
flushed = refl

process_tpm2_command-delivers_example :
    (r : Tpm2Response) × (after.sent ≡ response r ∷ []) × (r.connection ≡ 7)
process_tpm2_command-delivers_example =
    process_tpm2_command-delivers refusing flush_object before after flushed

process_tpm2_command-isolates_example : after.trans_map 8 ≡ before.trans_map 8
process_tpm2_command-isolates_example =
    process_tpm2_command-isolates refusing flush_object before after 8 flushed (λ p. omega arith)

process_tpm2_command-IsLater_example : IsLater (before.trans_map 7) (after.trans_map 7)
process_tpm2_command-IsLater_example =
    process_tpm2_command-IsLater refusing flush_object before after 7 flushed

abbrev with_session : ResMgr ℕ
with_session = daemon (1 ∷ []) maps_before []

foreign_session :
    (a : ℕ)
    → session_list_lookup_handle with_session.session_list 0x02000000 ≡ some a
    → ¬ IsLoadable 7 (entry_at with_session a)
unfolding IsLoadable
foreign_session a e (p, q) = omega arith

load_session_from_handle-refuses_example :
    load_session_from_handle refusing 7 0x02000000 true with_session
    ≡ some (rc_success, with_session)
load_session_from_handle-refuses_example =
    load_session_from_handle-refuses refusing 7 0x02000000 true with_session foreign_session

-- TPM2_GetCapability of the capability 0x20
abbrev get_capability : Tpm2Command
get_capability = record {
  connection = 7;
  attributes = 0x17a;
  buffer =
      0x80 ∷ 0x01 ∷ 0 ∷ 0 ∷ 0 ∷ 22 ∷ 0 ∷ 0 ∷ 0x01 ∷ 0x7a ∷ 0 ∷ 0 ∷ 0 ∷ 0x20 ∷ 0 ∷ 0 ∷ 0 ∷ 0 ∷ 0 ∷ 0
      ∷ 0 ∷ 1 ∷ [];
  buffer_size = 22;
}

is_get_capability : command_get_code get_capability ≡ 0x17a
unfolding command_get_code get_command_code get32 get8
is_get_capability = refl

no_auths : command_has_auths get_capability ≡ false
unfolding command_has_auths command_get_tag get_command_tag get16 get8
no_auths = refl

process_get_capability_cases_example :
    (IsForwarded refusing get_capability
      × IsTurnedDown refusing get_capability before
      × (process_tpm2_command refusing get_capability before ≡ none))
    ⊎ (¬ (IsForwarded refusing get_capability × IsTurnedDown refusing get_capability before)
        × ((r : Tpm2Response) × (t : Tpm2 ℕ) × (execute refusing get_capability before
              ≡ some ((r, []), record before { tpm2 = t }))
            × (process_tpm2_command refusing get_capability before
                ≡ finish refusing get_capability r [] (record before { tpm2 = t }))))
process_get_capability_cases_example =
    process_get_capability_cases refusing get_capability before is_get_capability no_auths

get_cap_handles_lem_example : get_cap_handles (λ f l. l) objects_of_7 0x80000000 1 ≡ (
    let l = at_least 0x80000000 (handle_map_get_keys objects_of_7) in (take 1 l, ltb 1 (length l)))
get_cap_handles_lem_example = get_cap_handles_lem (λ f l. l) objects_of_7 0x80000000 1
