-- ===== src/NetClient/Threads/Ranks.antt =====
-- How far each thread of c_net_client.cpp is from its end, once it is told to terminate.
use libncclient.Common.{ℕ, ◌+◌, ◌≤◌, arith}
use libncclient.NetClient.Threads.{
  Net, Writer, Reader, Watchdog, top, tests_alive, tests_front, takes, writes, leaves, ended,
  tests_available, reads, gets, checks, queues, tests_terminate, announces, connects, connecting,
  greets, sends_auth, sends_user, wakes, fails, waits, shuts,
}

-- The steps that a thread takes at most from here to its end, once the flag is set.
abbrev pub writer_rank : Writer → ℕ
writer_rank ended = 0
writer_rank leaves = 1
writer_rank top = 2
writer_rank (writes m) = 3
writer_rank takes = 4
writer_rank tests_front = 5
writer_rank tests_alive = 6

abbrev pub reader_rank : Reader → ℕ
reader_rank ended = 0
reader_rank leaves = 1
reader_rank top = 2
reader_rank (queues m) = 3
reader_rank (checks m) = 4
reader_rank gets = 5
reader_rank reads = 6
reader_rank tests_available = 7
reader_rank tests_alive = 8

abbrev pub watchdog_rank : Watchdog → ℕ
watchdog_rank ended = 0
watchdog_rank shuts = 1
watchdog_rank waits = 2
watchdog_rank leaves = 3
watchdog_rank top = 4
watchdog_rank tests_terminate = 5
watchdog_rank tests_alive = 6
watchdog_rank wakes = 7
watchdog_rank sends_user = 8
watchdog_rank sends_auth = 9
watchdog_rank greets = 10
watchdog_rank fails = 10
watchdog_rank connecting = 11
watchdog_rank connects = 12
watchdog_rank announces = 13

abbrev pub rank : Net → ℕ
rank n = writer_rank n.writer + reader_rank n.reader + watchdog_rank n.watchdog

writer_rank_le : (w : Writer) → writer_rank w ≤ 6
writer_rank_le ended = omega arith
writer_rank_le leaves = omega arith
writer_rank_le top = omega arith
writer_rank_le (writes m) = omega arith
writer_rank_le takes = omega arith
writer_rank_le tests_front = omega arith
writer_rank_le tests_alive = omega arith

reader_rank_le : (r : Reader) → reader_rank r ≤ 8
reader_rank_le ended = omega arith
reader_rank_le leaves = omega arith
reader_rank_le top = omega arith
reader_rank_le (queues m) = omega arith
reader_rank_le (checks m) = omega arith
reader_rank_le gets = omega arith
reader_rank_le reads = omega arith
reader_rank_le tests_available = omega arith
reader_rank_le tests_alive = omega arith

watchdog_rank_le : (w : Watchdog) → watchdog_rank w ≤ 13
watchdog_rank_le ended = omega arith
watchdog_rank_le shuts = omega arith
watchdog_rank_le waits = omega arith
watchdog_rank_le leaves = omega arith
watchdog_rank_le top = omega arith
watchdog_rank_le tests_terminate = omega arith
watchdog_rank_le tests_alive = omega arith
watchdog_rank_le wakes = omega arith
watchdog_rank_le sends_user = omega arith
watchdog_rank_le sends_auth = omega arith
watchdog_rank_le greets = omega arith
watchdog_rank_le fails = omega arith
watchdog_rank_le connecting = omega arith
watchdog_rank_le connects = omega arith
watchdog_rank_le announces = omega arith

pub rank_le : (n : Net) → rank n ≤ 27
rank_le n =
    omega (arith, writer_rank_le n.writer, reader_rank_le n.reader, watchdog_rank_le n.watchdog)
