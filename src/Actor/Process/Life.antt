-- ===== src/Actor/Process/Life.antt =====
-- actor/process.go: the making of a process, its Shutdown, and the text of a stack in its events.
use distributed_framework.Safemap
use distributed_framework.Actor.Pid.{Pid, new_pid}
use distributed_framework.Actor.Opts.{Opts}
use distributed_framework.Actor.Process.{Process, Res, cleanup}
use distributed_framework.Actor.Messages.{Fate, ReceiveFunc, Message}
use distributed_framework.Common.Decimal.{ℤ, itoa}
use Prim.Native.String.{◌++◌ as str_append}
use distributed_framework.Common.{
  ◌>>=◌, String, false, Option, none, some, List, [], ◌∷◌, nat_keys, string_keys,
}

-- `newProcess` on an engine with an address. `nil_receiver` and `no_message` stand for the
-- context's fields before they are set, and `fates` for what becomes of its children.
unfoldable pub new_process :
    {P C R U : Type 0}
    → String
    → Opts P (ReceiveFunc R U → ReceiveFunc R U) C
    → R
    → Message U
    → (Pid → Fate)
    → Process R U
unfolding new_pid Safemap.new
new_process address opts nil_receiver no_message fates = record {
  pid = new_pid address (str_append opts.kind (str_append "/" opts.id));
  parent = none;
  max_restarts = opts.max_restarts;
  middleware = opts.middleware;
  env = record { receiver = nil_receiver; children = Safemap.new };
  message = no_message;
  sender = none;
  restarts = 0;
  mbuffer = [];
  inbox_running = false;
  registered = false;
  fates = fates;
  log = [];
}

-- `Shutdown`
unfoldable pub shutdown : {R U : Type 0} → ReceiveFunc R U → Process R U → Res R U
unfolding cleanup
shutdown receive p = cleanup receive p none

-- What the library gostackparse reads of a stack.
pub record Frame : Type 0 where
  pub func : String
  pub file : String
  pub line : ℤ

pub record Goroutine : Type 0 where
  pub id : ℤ
  pub state : String
  pub stack : List Frame

unfoldable pub frames_text : List Frame → String
unfolding itoa
frames_text [] = ""
frames_text (f ∷ fs) = str_append f.func (
    str_append "\n\t" (
      str_append f.file
        (str_append ":" (str_append (itoa f.line) (str_append "\n" (frames_text fs))))))

-- `goros[0].Stack[4:]`; a shorter stack is a panic.
unfoldable pub skip_frames : List Frame → Option (List Frame)
skip_frames (a ∷ b ∷ c ∷ d ∷ fs) = some fs
skip_frames fs = none

-- `parsed` is what the library makes of the text, or its error.
unfoldable pub clean_trace : String → Option (List Goroutine) → Option String
unfolding frames_text skip_frames itoa
clean_trace stack none = some stack
clean_trace stack (some []) = some stack
clean_trace stack (some (g ∷ [])) = skip_frames g.stack >>= λ fs. some (
    str_append "goroutine " (
      str_append (itoa g.id)
        (str_append " [" (str_append g.state (str_append "]\n" (frames_text fs))))))
clean_trace stack (some (g ∷ h ∷ gs)) = some stack
