-- ===== src/WgQuick/Binder.antt =====
-- wg-quick/android.c: the name servers, set through the Android binder. A status is the bit pattern
-- of an int of 32 bits.
use router1_app.Prelude.{
  ℕ, ◌^◌, Option, none, some, List, [], ◌∷◌, ◌==◌, if◌then◌else◌, Bytes, length, sub32, minus_one,
  ◌+◌, Bool, ◌&&◌,
}
use router1_app.WgQuick.Script.{
  World, Script, AStatus, Call, prepare_transaction, write_int32, write_string_array, write_string,
  set_data_position, transact, read_status_header, pure, gets, note, called, ◌>>=◌, ◌>>◌, status,
}

unfoldable pub string_size : Option Bytes → ℕ
string_size none = minus_one
string_size (some str) = length str

unfoldable pub string_array_size : Option (List Bytes) → ℕ
string_array_size none = minus_one
string_array_size (some array) = length array

abbrev pub ex_transaction_failed : ℕ
ex_transaction_failed = sub32 0 129

abbrev pub status_failed_transaction : ℕ
status_failed_transaction = 2 ^ 31 + 2

unfoldable pub meaningful_binder_status : AStatus → ℕ
meaningful_binder_status out =
    if out.is_ok
    then 0
    else if out.exception_code == ex_transaction_failed
    then out.status
    else status_failed_transaction

-- Whether there is a handle.
unfoldable pub dnsresolver_get_handle : World → Bool
dnsresolver_get_handle w =
    w.binder_available && w.has_service && w.class_defined && w.class_associated

-- A call with its status, 0 for STATUS_OK.
unfoldable pub make_call : World → Call → Script ℕ
make_call w c = do status ← gets (λ s. w.call s.done c); note (called c); pure status

-- Calls that each return at once with a status that is not STATUS_OK.
unfoldable pub make_calls : World → List Call → Script ℕ
unfolding make_call
make_calls w [] = pure 0
make_calls w (c ∷ calls) = do
  status ← make_call w c
  let further = make_calls w calls
  if status == 0 then further else pure status

abbrev pub and_then : Script ℕ → Script ℕ → Script ℕ
and_then m k = do status ← m; if status == 0 then k else pure status

unfoldable pub dnsresolver_create_network_cache : World → ℕ → Script ℕ
unfolding make_calls meaningful_binder_status
dnsresolver_create_network_cache w netid =
    and_then
      (make_calls w
        (prepare_transaction ∷ write_int32 netid ∷ transact 8 ∷ read_status_header ∷ []))
      (gets (λ s. meaningful_binder_status (w.status_out s.done)))

pub record DnsresolverParams : Type 0 where
  pub netid : ℕ
  pub sample_validity_seconds : ℕ
  pub success_threshold : ℕ
  pub min_samples : ℕ
  pub max_samples : ℕ
  pub base_timeout_msec : ℕ
  pub retry_count : ℕ
  pub servers : List Bytes
  pub domains : List Bytes
  pub tls_name : Bytes
  pub tls_servers : List Bytes
  pub tls_fingerprints : List Bytes

abbrev pub write_array : List Bytes → Call
write_array texts = write_string_array texts (string_array_size (some texts))

-- The parameters in the order of the parcel, behind the place of its size.
abbrev pub param_calls : DnsresolverParams → List Call
param_calls p =
    write_int32 0
    ∷ write_int32 p.netid
    ∷ write_int32 p.sample_validity_seconds
    ∷ write_int32 p.success_threshold
    ∷ write_int32 p.min_samples
    ∷ write_int32 p.max_samples
    ∷ write_int32 p.base_timeout_msec
    ∷ write_int32 p.retry_count
    ∷ write_array p.servers
    ∷ write_array p.domains
    ∷ write_string p.tls_name (string_size (some p.tls_name))
    ∷ write_array p.tls_servers
    ∷ write_array p.tls_fingerprints
    ∷ []

-- The size goes in front of the parameters, and the position back behind them.
abbrev pub send_calls : ℕ → ℕ → List Call
send_calls start_position end_position =
    set_data_position start_position
    ∷ write_int32 (sub32 end_position start_position)
    ∷ set_data_position end_position
    ∷ transact 3
    ∷ read_status_header
    ∷ []

unfoldable pub dnsresolver_set_resolver_configuration : World → DnsresolverParams → Script ℕ
unfolding make_calls meaningful_binder_status string_array_size string_size
dnsresolver_set_resolver_configuration w p =
    and_then (make_calls w (prepare_transaction ∷ write_int32 1 ∷ [])) (do
      start_position ← gets (λ s. w.data_position s.done)
      and_then (make_calls w (param_calls p)) (do
        end_position ← gets (λ s. w.data_position s.done)
        and_then (make_calls w (send_calls start_position end_position))
            (gets (λ s. meaningful_binder_status (w.status_out s.done)))))
