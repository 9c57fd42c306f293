-- ===== src/Service/Launch/Stops.antt =====
-- No service can be started by `NewContext` of skynet-src/service.cpp.
use skynet_cpp.Prelude.{ℕ, ◌==◌, ◌≡◌, refl, Bool, true, false, List, ◌++◌, arith}
use skynet_cpp.Prelude.Run.{Run, fault, deleted_object}
use skynet_cpp.Prelude.Run.Ensures.{Ensures, Ensures-ok, Ensures-fault, Ensures-if, Ensures-bind}
use skynet_cpp.Handle.Retire.{release}
use skynet_cpp.Mq.GlobalQueue
use skynet_cpp.Service.Contexts.{System, live, release_context}
use skynet_cpp.Service.Contexts.Deleted.{Any, anything, delete_context-Deleted, finish-Deleted}
use skynet_cpp.Service.Launch.{construct, register_again, after_release, launched, new_context}

live-gone : (c : ℕ) (w : System) → (w.context c).deleted ≡ true → live c w ≡ fault deleted_object
live-gone c w gone = rw (live, gone) refl

release_context-Gone :
    (c : ℕ) (w : System)
    → Ensures Any (λ r. r.0 ≡ false → (r.1.context c).deleted ≡ true) (release_context c w)
unfolding release_context
release_context-Gone c w = Ensures-bind (anything (live c w)) (λ a h.
    Ensures-if (release w.memory c).1
      (λ last.
        Ensures-bind (finish-Deleted c (record w { memory = (release w.memory c).0 }))
          (λ w' gone. Ensures-ok (λ e. gone)))
      (λ more. Ensures-ok (λ e. absurd (cc e))))

after_release-Stops :
    (c q : ℕ) (text : List ℕ) (kept : Bool) (w : System)
    → (kept ≡ false → (w.context c).deleted ≡ true)
    → Ensures Any (λ r. ⊥) (after_release c q text kept w)
unfolding after_release
after_release-Stops c q text true w h = Ensures-bind (delete_context-Deleted c w) (λ w2 gone.
    Ensures-bind (anything (GlobalQueue.push w2.world.global q)) (λ g pushed.
      let w3 : System = record w2 { world = record w2.world { global = g } } in
      rw (live-gone c w3 gone.1) (Ensures-fault tt)))
after_release-Stops c q text false w h = rw (live-gone c w (h refl)) (Ensures-fault tt)

launched-Stops : (c q : ℕ) (text : List ℕ) (w : System) → Ensures Any (λ r. ⊥) (launched c q text w)
unfolding launched
launched-Stops c q text w =
    Ensures-bind (release_context-Gone c w) (λ r h. after_release-Stops c q text r.0 r.1 h)

-- When the module is found and gives an instance, and the results of its init function are always 0,
-- NewContext stops at a fault on every state.
pub new_context-Stops :
    (module_init : ℕ → System → Run (ℕ × System))
    → ((c : ℕ) (w : System) → Ensures Any (λ r. r.0 ≡ 0) (module_init c w))
    → (fuel : ℕ) (name param : List ℕ) (c q1 q2 : ℕ) (w : System)
    → Ensures Any (λ r. ⊥) (new_context module_init fuel true true name param c q1 q2 w)
unfolding new_context
new_context-Stops module_init zero_result fuel name param c q1 q2 w =
    Ensures-bind (anything (construct c q1 w)) (λ w1 h1.
      Ensures-bind (anything (register_again c q2 w1)) (λ w2 h2.
        Ensures-bind (zero_result c w2) (λ r zero.
          let on : (r.0 == 0) ≡ true = ground arith in
          rw on
            (Ensures-bind (launched-Stops c q2 (name ++ param) r.1) (λ s never. absurd never)))))
