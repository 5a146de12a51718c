-- ===== src/Netsocket/Safety/Examples.antt =====
-- Callbacks that destroy their own object and others.
use libc_jss.Base.{codes, ℕ, zero, suc, ◌≡◌, refl, inl, false, some, [], ◌∷◌}
use libc_jss.Netsocket.{Event, event_connect, called}
use libc_jss.Netsocket.Script.{call_destroy}
use libc_jss.Netsocket.Part.{invoke_callback, disconnect}
use libc_jss.Netsocket.World.{World, object, run, replies, Script, done, call, create}
use libc_jss.Netsocket.Inside.{IsOrdered, Live}
use libc_jss.Netsocket.Fine.{Fine}
use libc_jss.Netsocket.Safety.{run-Live, misused_only_by_disconnect}
use libc_jss.Netsocket.Samples.{answers, fresh}

-- The object at 0 is in one callback; every other address holds an object in none.
abbrev inside : World
inside zero = record fresh { in_callback = 1 }
inside (suc a) = fresh

abbrev one_inside : ℕ → ℕ
one_inside zero = 1
one_inside (suc a) = 0

inside-Fine : Fine one_inside inside
unfolding IsOrdered
inside-Fine zero = (false, inl ((refl, (refl, (refl, (λ k. (refl, refl, refl), tt)))), λ k. refl))
inside-Fine (suc a) =
    (false, inl ((refl, (refl, (refl, (λ k. (refl, refl, refl), tt)))), λ k. refl))

abbrev destroys_all : Script
destroys_all =
    call 1 answers call_destroy done (call 0 answers call_destroy done (create 1 5 6 done))

run-Live_example :
    Fine one_inside (run destroys_all inside)
    × ((a n : ℕ) → one_inside a ≡ suc n → Live (suc n) (run destroys_all inside a))
run-Live_example = run-Live destroys_all one_inside inside inside-Fine

made_outside : Fine (λ a. 0) (λ a. fresh)
unfolding IsOrdered
made_outside a = (false, inl ((refl, (refl, (refl, (λ k. (refl, refl, refl), tt)))), λ k. refl))

fresh-Live : Live 0 fresh
unfolding IsOrdered
fresh-Live = (refl, (refl, (refl, (λ k. (refl, refl, refl), tt))))

connect_event-IsOrdered : IsOrdered (called event_connect false ∷ [])
unfolding IsOrdered
connect_event-IsOrdered = tt

abbrev destroys : Event → Script
destroys e = destroys_all

misused_only_by_disconnect_example :
    ((invoke_callback (object 0) (replies destroys) event_connect (λ a. fresh) 0).misused ≡ false)
    × (let t = disconnect (object 0) (replies destroys) (some (codes "bye")) (λ a. fresh) 0 in
        t.misused ≡ t.freed)
misused_only_by_disconnect_example =
    misused_only_by_disconnect destroys event_connect (some (codes "bye")) (λ a. 0) 0 (λ a. fresh)
      made_outside fresh-Live connect_event-IsOrdered
