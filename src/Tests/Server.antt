-- ===== src/Tests/Server.antt =====
-- Tests of ServerApi.
use libncclient.Common.{◌≡◌, refl, [], codes, arith}
use libncclient.Memory.{Heap, done}
use libncclient.Interop.{make_view}
use libncclient.Interop.Copies.{with_copy}
use libncclient.ServerApi.Response.{
  server_command_command_tagged, server_command_command, sa_server_response_to_info,
}
use libncclient.ServerApi.Response.Classify.{info_in, response-entry}
use libncclient.ServerApi.Response.Ownership.{read_response, used_twice, read_response_lem}
use libncclient.ServerApi.Fields.Cut.{
  Gives, fields-cut, consume-parts, consume_tagged, consume_down, with_parts, text_left, first_part,
  second_part,
}

abbrev plain_heap : Heap
plain_heap = record { next = 1; blocks = [] }

response-entry_example :
    sa_server_response_to_info (make_view (codes "command_tagged a b")) plain_heap
    ≡ done
        (info_in server_command_command_tagged (codes "a b") plain_heap)
        (with_copy (codes "a b") plain_heap)
response-entry_example =
    response-entry 6 server_command_command_tagged (codes "command_tagged ") (codes "a b")
      plain_heap refl (omega arith)

read_response_lem_example :
    read_response (codes "command hello") plain_heap ≡ done (codes "hello") (used_twice plain_heap)
read_response_lem_example =
    read_response_lem 0 server_command_command (codes "command ") b'h' (codes "ello") plain_heap
      refl (omega arith)

fields-cut_example :
    Gives server_command_command_tagged (codes "a b c") (codes "a") (codes "b c") plain_heap
    × Gives server_command_command_tagged (codes "xy") (codes "xy") [] plain_heap
fields-cut_example =
    fields-cut server_command_command_tagged (codes "a") (codes "b c") b'x' (codes "y") plain_heap
      (refl, tt) (omega arith) (refl, (refl, tt)) (omega arith)

consume-parts_example :
    (consume_tagged
        (record {
          tag = first_part (codes "a b") (codes "a") plain_heap;
          val = second_part (codes "a b") (codes "a") (codes "b") plain_heap;
        })
        (with_parts (codes "a b") (codes "a") (codes "b") plain_heap)
      ≡ done (codes "a", codes "b") (text_left (codes "a b") plain_heap))
    × (consume_down
          (record {
            full_name = first_part (codes "a b") (codes "a") plain_heap;
            script_data = second_part (codes "a b") (codes "a") (codes "b") plain_heap;
          })
          (with_parts (codes "a b") (codes "a") (codes "b") plain_heap)
        ≡ done (codes "a", codes "b") (text_left (codes "a b") plain_heap))
consume-parts_example = consume-parts (codes "a b") (codes "a") (codes "b") plain_heap
