-- ===== src/Remote/Router.antt =====
-- remote/stream_router.go: the actor that gives each address its stream writer.
pub mod Laws
use distributed_framework.Common.Dict.{Dict, lookup, insert, delete}
use distributed_framework.Actor.Pid.{Pid}
use distributed_framework.Remote.Writer.{StreamDeliver, StreamWriter, new_stream_writer}
use distributed_framework.Common.{String, none, some, List, [], ◌∷◌, nat_keys, string_keys}

pub record StreamRouter : Type 0 where
  pub engine_address : String
  pub streams : Dict String Pid
  pub pid : Pid

pub data RouterRequest (M : Type 0) : Type 0 where
  started : Pid → RouterRequest M
  deliver : StreamDeliver M → RouterRequest M
  unreachable : String → RouterRequest M

pub data RouterEffect (M : Type 0) : Type 0 where
  spawn_writer : StreamWriter → RouterEffect M
  send_to : Pid → StreamDeliver M → RouterEffect M

unfoldable pub new_stream_router : String → Pid → StreamRouter
new_stream_router engine_address pid = record {
  engine_address = engine_address;
  streams = [];
  pid = pid;
}

unfoldable pub handle_terminate_stream : StreamRouter → String → StreamRouter
handle_terminate_stream s addr = record s { streams = delete addr s.streams }

unfoldable pub deliver_stream :
    {M : Type 0} → StreamRouter → StreamDeliver M → StreamRouter × List (RouterEffect M)
unfolding new_stream_writer
deliver_stream s d = elim (lookup d.target.address s.streams) [
  | some swpid ↦ (s, send_to swpid d ∷ [])
  | none ↦
      let w : StreamWriter = new_stream_writer s.engine_address s.pid d.target.address in
      (
        record s { streams = insert d.target.address w.pid s.streams },
        spawn_writer w ∷ send_to w.pid d ∷ [],
      )
]

unfoldable pub receive :
    {M : Type 0} → StreamRouter → RouterRequest M → StreamRouter × List (RouterEffect M)
unfolding deliver_stream handle_terminate_stream
receive s (started pid) = (record s { pid = pid }, [])
receive s (deliver d) = deliver_stream s d
receive s (unreachable addr) = (handle_terminate_stream s addr, [])
