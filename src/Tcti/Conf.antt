-- ===== src/Tcti/Conf.antt =====
-- The configuration of src/tcti-tabrmd.c: the bus and the name under which the daemon is found.
use tpm2_abrmd.Prelude.{ℕ, List, [], ◌∷◌, Bool, true, false, ◌&&◌, if◌then◌else◌, ◌==◌}
use tpm2_abrmd.Constants.TctiRc
use tpm2_abrmd.Constants.{rc_success}
use tpm2_abrmd.Util.KeyValue.{KeyValue}

-- strcmp (a, b) == 0
unfoldable pub str_eq : List ℕ → List ℕ → Bool
str_eq [] [] = true
str_eq [] (d ∷ t) = false
str_eq (c ∷ s) [] = false
str_eq (c ∷ s) (d ∷ t) = c == d && str_eq s t

-- GBusType of GIO
pub data BusType : Type 0 where
  bus_none : BusType
  bus_system : BusType
  bus_session : BusType

-- tabrmd_conf_t
pub record TabrmdConf : Type 0 where
  pub bus_name : List ℕ
  pub bus_type : BusType

abbrev pub session_word : List ℕ
session_word = b's' ∷ b'e' ∷ b's' ∷ b's' ∷ b'i' ∷ b'o' ∷ b'n' ∷ []

abbrev pub system_word : List ℕ
system_word = b's' ∷ b'y' ∷ b's' ∷ b't' ∷ b'e' ∷ b'm' ∷ []

abbrev pub bus_name_word : List ℕ
bus_name_word = b'b' ∷ b'u' ∷ b's' ∷ b'_' ∷ b'n' ∷ b'a' ∷ b'm' ∷ b'e' ∷ []

abbrev pub bus_type_word : List ℕ
bus_type_word = b'b' ∷ b'u' ∷ b's' ∷ b'_' ∷ b't' ∷ b'y' ∷ b'p' ∷ b'e' ∷ []

-- The table of names and types, and the loop over it.
abbrev pub bus_name_type_map : List (List ℕ × BusType)
bus_name_type_map = (session_word, bus_session) ∷ (system_word, bus_system) ∷ []

unfoldable pub find_type : List (List ℕ × BusType) → List ℕ → BusType
unfolding str_eq
find_type [] bus_type = bus_none
find_type ((name, type) ∷ l) bus_type =
    let rest = find_type l bus_type in if str_eq name bus_type then type else rest

unfoldable pub bus_type_from_str : List ℕ → BusType
unfolding find_type
bus_type_from_str bus_type = find_type bus_name_type_map bus_type

abbrev pub is_none : BusType → Bool
is_none bus_none = true
is_none type = false

-- The configuration and the response code; the pair and the configuration are given.
unfoldable pub kv_callback : KeyValue → TabrmdConf → TabrmdConf × ℕ
unfolding str_eq bus_type_from_str
kv_callback kv conf =
    if str_eq kv.key bus_name_word
    then (record conf { bus_name = kv.value }, rc_success)
    else if str_eq kv.key bus_type_word
    then (
      record conf { bus_type = bus_type_from_str kv.value },
      if is_none (bus_type_from_str kv.value) then TctiRc.bad_value else rc_success,
    )
    else (conf, TctiRc.bad_value)
