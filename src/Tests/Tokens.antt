-- ===== src/Tests/Tokens.antt =====
-- A run of fastapi_m8/_internal_auth.py by two tasks: one token is minted, and both get it.
use mathlib.Core.List.{Memᴰ}
use fastapi_m.Base.{ℕ, ◌≡◌, ◌≤◌, ◌⊎◌, String, refl, some, none, [], ◌∷◌, arith}
use fastapi_m.Base.Exec.{Result, ok}
use fastapi_m.Http.{Failure, Response}
use fastapi_m.InternalAuth.{service_token}
use fastapi_m.InternalAuth.Tasks.{
  wanting, exchanging, answered, System, update, take_reply, Step, reused, sent, received,
  IsInitial, Reach, here, next,
}
use fastapi_m.InternalAuth.Tasks.Serial.{Serial, tasks-Serial}
use fastapi_m.InternalAuth.Tasks.Progress.{GoesOn, Returns, tasks_progress}
use fastapi_m.InternalAuth.Tasks.Minting.{minted-le-drops}
use fastapi_m.Tests.Data.{net}

program : Unit {0}
unfolding service_token take_reply
program = tt

abbrev start : System
start = record {
  provider = service_token "shop" "secret" [] [] 5;
  holder = none;
  calls = λ i. wanting;
  answers = [];
  minted = 0;
}

start-IsInitial : IsInitial start
start-IsInitial = record { free = refl; waiting = λ i. refl; none_told = refl; none_minted = refl }

abbrev reply : Response
reply = record { status_code = 200; content = 1 ∷ [] }

abbrev first : System
first = record start { holder = some 0; calls = update start.calls 0 exchanging }

abbrev second : System
second = record first {
  provider = record start.provider { token = some "minted"; expires_at = 61 };
  holder = none;
  calls = update first.calls 0 (answered (ok "minted"));
  answers = (0, ok "minted") ∷ [];
  minted = 1;
}

abbrev third : System
third = record second {
  calls = update second.calls 1 (answered (ok "minted"));
  answers = (1, ok "minted") ∷ (0, ok "minted") ∷ [];
}

asks : Step net start first
unfolding program
asks = sent 0 5 refl refl refl

gets : Step net first second
unfolding program
gets = received 0 6 (ok reply) refl

shares : Step net second third
unfolding program
shares = reused 1 20 "minted" refl refl refl

run : Reach net start third
run = next (next (next here asks) gets) shares

tasks-Serial_example :
    Serial net start.provider third.answers third.provider
    × ((i : ℕ) (r : Result Failure String) → third.calls i ≡ answered r → Memᴰ (i, r) third.answers)
    × ((i j : ℕ) → third.calls i ≡ exchanging → third.calls j ≡ exchanging → i ≡ j)
tasks-Serial_example = tasks-Serial net start third start-IsInitial run

minted-le-drops_example : third.minted ≤ 1
unfolding program run asks gets shares
minted-le-drops_example =
    minted-le-drops net 61 start third start-IsInitial run
      ((((tt, omega arith), λ token is. omega arith)), tt)

-- call 1 waits while call 0 is in the exchange
tasks_progress_example :
    GoesOn net first 1
    ⊎ ((j : ℕ) × (first.holder ≡ some j)
        × ((reply : Result Failure Response) → Returns net first j reply))
tasks_progress_example = tasks_progress net start first 1 20 start-IsInitial (next here asks) refl
