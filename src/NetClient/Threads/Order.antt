-- ===== src/NetClient/Threads/Order.antt =====
-- The order in which commands reach the sockets, whatever the threads do.
use libncclient.Common.{Bool, ◌≡◌, List, ◌++◌, Bytes}
use libncclient.Memory.{Heap}
use libncclient.Util.Files.{Files}
use libncclient.SharedData.{SharedData, SteamStore}
use libncclient.NetClient.Auth.{Steam}
use libncclient.NetClient.Threads.{Net, start}
use libncclient.NetClient.Threads.Steps.{Steps}
use libncclient.NetClient.Threads.Ready.{hand}
use libncclient.NetClient.Threads.Channel.{Acts-fifo, Steps-Channel}

module _ (steam : Steam) (store : SteamStore) where
  -- From the start of the threads on, in any order of their steps, the server's answers and the
  -- calls of an application that leaves the write queue to the write thread: the messages that were
  -- queued at the start and those that the calls of the application and of the threads added behind
  -- the queue since, in their order, are those that were handed to a socket, then the one that the
  -- write thread holds, then those that wait. So no command is lost in the client, sent twice or
  -- sent before an earlier one, and the text that an empty queue gives is never sent unless it was
  -- put there; a command whose write fails counts as handed over, and is not sent again. It is a
  -- condition of the steps that the queued messages fit (`Fits`) where one is taken.
  pub Steps-order :
      (alive : Bool) (d : SharedData) (h : Heap) (files : Files) (ps : List Bytes) (t : Net)
      → Steps steam store (start alive d h files) ps t
      → d.write_queue ++ ps ≡ t.tried ++ (hand t.writer ++ t.shared.write_queue)
  Steps-order alive d h files ps t run =
      Acts-fifo (Steps-Channel steam store alive d h files ps t run)
