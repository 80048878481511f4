-- ===== src/Tests/Shared.antt =====
-- Tests of SteamApi, SharedData and NetClient.
use libncclient.Common.{
  ℕ, ◌≡◌, refl, true, false, List, [], ◌∷◌, ◌++◌, none, some, Bytes, codes, arith, ◌==◌,
  if◌then◌else◌,
}
use libncclient.Memory.{Heap, M, done, pure}
use libncclient.Memory.Laws.{used_address}
use libncclient.SteamApi.{
  SteamApi, result_ok, steam_api_alloc, steam_api_enabled, handle_auth,
  on_request_encrypted_app_ticket, steam_api_should_wait_for_encrypted_token,
  steam_api_has_encrypted_token,
}
use libncclient.SteamApi.Auth.{handle_auth-answer}
use libncclient.SharedData.{
  SharedData, SteamStore, sd_alloc, add_back_read, sd_use_steam_auth, add_back_write,
}
use libncclient.SharedData.Queues.{
  Call, adds_read, adds_write, gets_read, gets_write, counts, step, run, all_takes, takes_read,
  takes_write, run-fifo,
}
use libncclient.SharedData.Interface.{exchange_write, exchange_write_lem}
use libncclient.NetClient.Hex.{lut, binary_to_hex, hex_to_binary, hex_to_binary-binary_to_hex}
use libncclient.NetClient.Auth.{Steam, handle_sending_auth}
use libncclient.NetClient.Auth.Sent.{handle_sending_auth-key, handle_sending_auth-ticket}
use libncclient.Util.Files.{Files, stores, not_opened, write_all_bin}
use libncclient.NetClient.KeyFile.{auth_str, welcome, check_auth}
use libncclient.NetClient.KeyFile.Kept.{restart, check_auth_new, load_key_file-check_auth}

abbrev pub start_heap : Heap
start_heap = record { next = 1; blocks = [] }

abbrev pub live : SteamApi
unfolding steam_api_alloc
live = steam_api_alloc true

abbrev pub handle : Bytes → ℕ
handle s = 7

handle_auth-answer_example :
    (steam_api_should_wait_for_encrypted_token (handle_auth handle [] live) ≡ true)
    × (steam_api_has_encrypted_token (handle_auth handle [] live) ≡ false)
    × (q : SteamApi) × (on_request_encrypted_app_ticket result_ok
          (some (codes "abc", 2))
          (handle_auth handle [] live)
          start_heap
        ≡ done q start_heap)
    × (steam_api_should_wait_for_encrypted_token q ≡ false)
    × (steam_api_has_encrypted_token q ≡ true)
    × (q.encrypted_app_ticket ≡ codes "ab")
unfolding steam_api_alloc
handle_auth-answer_example =
    handle_auth-answer handle [] live start_heap refl result_ok (codes "abc") 2 (omega arith)

abbrev history : List Call
history =
    adds_write (codes "a")
    ∷ gets_read
    ∷ adds_write (codes "b")
    ∷ adds_read (codes "r")
    ∷ gets_write
    ∷ gets_read
    ∷ counts
    ∷ []

taken : all_takes takes_write sd_alloc history ≡ codes "a" ∷ []
unfolding all_takes takes_write step
taken = refl

run-fifo_example :
    (codes "r" ∷ [] ≡ all_takes takes_read sd_alloc history ++ (run sd_alloc history).read_queue)
    × (codes "a" ∷ codes "b" ∷ []
        ≡ all_takes takes_write sd_alloc history ++ (run sd_alloc history).write_queue)
run-fifo_example = run-fifo sd_alloc history

abbrev one_queued : SharedData
one_queued = record sd_alloc { write_queue = codes "old" ∷ [] }

exchange_write_lem_example :
    exchange_write one_queued (codes "new") start_heap
    ≡ done
        (codes "old", record one_queued { write_queue = codes "new" ∷ [] })
        (used_address start_heap)
exchange_write_lem_example =
    exchange_write_lem one_queued (codes "new") (codes "old") (codes "new" ∷ []) start_heap
      (omega arith) (omega arith) refl

abbrev pub clients : SteamStore
clients p = if p == 5 then some live else none

hex_text : binary_to_hex (31 ∷ 160 ∷ []) false ≡ codes "F10A"
unfolding binary_to_hex lut
hex_text = refl

hex_to_binary-binary_to_hex_example :
    hex_to_binary false (binary_to_hex (31 ∷ 160 ∷ []) false) ≡ 31 ∷ 160 ∷ []
hex_to_binary-binary_to_hex_example =
    hex_to_binary-binary_to_hex (31 ∷ 160 ∷ []) false (omega arith, (omega arith, tt))

abbrev pub steam : Steam
unfolding steam_api_alloc
steam = record {
  request = handle;
  wait = λ s. record s {
    environment = record (s.environment) {
      auth_in_progress = false;
      has_encrypted_ticket = true;
      encrypted_app_ticket = 31 ∷ [];
    };
  };
}

abbrev keyed : SharedData
keyed = record sd_alloc { auth = codes "k" }

no_steam : sd_use_steam_auth clients keyed start_heap ≡ done false start_heap
unfolding sd_use_steam_auth
no_steam = refl

handle_sending_auth-key_example :
    handle_sending_auth steam clients keyed start_heap
    ≡ done (add_back_write (codes "client_command auth client k") keyed) (used_address start_heap)
handle_sending_auth-key_example =
    handle_sending_auth-key steam clients keyed start_heap no_steam (omega arith)

abbrev steamed : SharedData
steamed = record keyed { use_steam_auth = true; csapi = some 5 }

with_steam : sd_use_steam_auth clients steamed start_heap ≡ done true start_heap
unfolding sd_use_steam_auth steam_api_alloc steam_api_enabled
with_steam = refl

handle_sending_auth-ticket_example :
    handle_sending_auth steam clients steamed start_heap
    ≡ done
        (add_back_write (codes "client_command auth_steam client_hex F1") steamed)
        (used_address (used_address start_heap))
unfolding steam_api_alloc steam_api_has_encrypted_token handle_auth binary_to_hex lut
handle_sending_auth-ticket_example =
    handle_sending_auth-ticket steam clients steamed 5 live
      (steam.wait (handle_auth handle (codes "k") live)) start_heap with_steam refl refl refl
      (omega arith) (omega arith) (omega arith)

abbrev pub no_files : Files
no_files name = none

abbrev key_files : Files
key_files = write_all_bin (stores 3) (codes "key.key") (codes "old") no_files

abbrev do_nothing : SharedData → M SharedData
do_nothing d = pure d

check_auth_new_example :
    check_auth do_nothing not_opened no_files sd_alloc (auth_str ++ codes "new") start_heap
    ≡ done
        (
          write_all_bin not_opened (codes "key.key") (codes "new") no_files,
          add_back_read welcome (record sd_alloc { auth = codes "new" }),
        )
        (used_address start_heap)
check_auth_new_example =
    check_auth_new do_nothing not_opened no_files sd_alloc (codes "new") start_heap refl
      (omega arith) (omega arith)

load_key_file-check_auth_example :
    restart do_nothing (stores 5) no_files sd_alloc sd_alloc (auth_str ++ codes "new") start_heap
    ≡ done (record sd_alloc { auth = codes "new" }) (used_address (used_address start_heap))
load_key_file-check_auth_example =
    load_key_file-check_auth do_nothing 5 no_files sd_alloc sd_alloc (codes "new") start_heap refl
      refl (omega arith) (omega arith) (omega arith)
