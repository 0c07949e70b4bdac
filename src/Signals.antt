-- ===== src/Signals.antt =====
-- `Signals` of source/signals.h and source/signals.cpp, without the signal of Windows. The handlers
-- are the effects of tasks; what is printed is added to the console of the system.
use juggernaut_server.Base.{
  ℕ, Bool, true, false, List, [], ◌∷◌, ◌++◌, Option, none, some, codes, ◌==◌, if◌then◌else◌,
}
use juggernaut_server.Tasks.{Task, call, add_task}
use juggernaut_server.Shutdown.{System}
pub mod Handling
mod Examples

pub data Signal : Type 0 where
  sigint sigterm sigusr1 sighup : Signal
  other_signal : ℕ → Signal

-- The signals that the constructor adds to the set.
unfoldable pub is_registered : Signal → Bool
is_registered (other_signal n) = false
is_registered signal = true

unfoldable pub print : List ℕ → System → System
print text s = record s { console = s.console ++ text ∷ [] }

unfoldable pub sigint_handler : System → System
unfolding print
sigint_handler s = print (codes "SIGINT received, shutting game server down...") s

unfoldable pub sigterm_handler : System → System
unfolding print
sigterm_handler s = print (codes "SIGTERM received, shutting game server down...") s

unfoldable pub sighup_handler : System → System
unfolding print
sighup_handler s = print (codes "SIGHUP received, reloading config files...") s

unfoldable pub sigusr1_handler : System → System
unfolding print
sigusr1_handler s = print (codes "SIGUSR1 received, saving the game state...") s

-- What the tasks do; the numbers are those of the handlers, and no other task is queued.
unfoldable pub run_handler : ℕ → System → System
unfolding sigint_handler sigterm_handler sighup_handler sigusr1_handler
run_handler f s =
    if f == 1
    then sigint_handler s
    else if f == 2
    then sigterm_handler s
    else if f == 3
    then sighup_handler s
    else if f == 4
    then sigusr1_handler s
    else s

-- The numbers of the handlers.
unfoldable pub handler : Signal → Option ℕ
handler sigint = some 1
handler sigterm = some 2
handler sighup = some 3
handler sigusr1 = some 4
handler (other_signal n) = none

-- `createTask` without an expiration.
abbrev pub handler_task : ℕ → Task
handler_task f = record { expiration = 0; work = call f }

unfoldable pub dispatch_signal_handler : Signal → System → System
unfolding handler add_task
dispatch_signal_handler signal s = elim (handler signal) [
  | none ↦ s
  | some f ↦ record s { dispatcher = (add_task (handler_task f) false s.dispatcher).1 }
]

-- Whether a wait is under way, and the server.
pub record SignalWorld : Type 0 where
  pub waiting : Bool
  pub system : System

unfoldable pub async_wait : SignalWorld → SignalWorld
async_wait w = record w { waiting = true }

-- The end of a wait, by a signal or by an error (none).
unfoldable pub on_signal : Option Signal → SignalWorld → SignalWorld
unfolding dispatch_signal_handler async_wait
on_signal none w = record w { waiting = false }
on_signal (some signal) w =
    async_wait (record w { system = dispatch_signal_handler signal w.system })
