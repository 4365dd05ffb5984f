-- ===== src/Core/Assert/Tests.antt =====
-- The theorem on src/rbc/core/assert.c at a concrete system, and a failed assertion.
use rubidium_c.Prelude.{ℕ, ◌≡◌, refl, Bool, true, false, not, none, some, List, [], ◌∷◌, inl, ◌+◌}
use rubidium_c.Prelude.Int.{ℤ, pos}
use rubidium_c.Core.Error.{Error}
use rubidium_c.Core.Error.Message.{codes}
use rubidium_c.Core.SourceLocation.{SourceLocation, print_to}
use rubidium_c.Sync.World.{Call, malloc_succeeds, World, done}
use rubidium_c.Core.Assert.{Globals, get_assert_handler_atomic, throw_assert_x}
use rubidium_c.Core.Assert.Handler.{Works}
use rubidium_c.Core.Assert.Requests.{get, set, perform_all, serve, serve_atomic, handler-answers}
use rubidium_c.Sync.Thread.Start.{returned}

-- The state is the once flag, and every call succeeds.
abbrev system : Call → Bool → ℤ × Bool
system malloc_succeeds s = (pos 1, s)
system _ s = (pos 0, s)

abbrev once : Bool → (Bool × ℤ) × Bool
once s = ((not s, pos 0), true)

abbrev ran : Bool → Bool
ran s = s

abbrev value : Error → ℤ
value _ = pos 12

system-Works : Works system once ran
system-Works = record {
  first = λ s. refl;
  later = λ s. refl;
  apart = λ c s. elim c as (λ k. ran (system k s).1 ≡ ran s) [ malloc_succeeds ↦ refl | _ ↦ refl ];
  memory = λ s. refl;
  attributes = λ s. refl;
  typed = λ s. refl;
  robust = λ s. refl;
}

abbrev starting : World (Globals Bool)
starting = record {
  live = λ a. false;
  next = 1;
  os = record { handler = 0; mutex = none; errors = []; system = false };
}

handler-answers_example :
    (returned (perform_all (serve system once value) (get ∷ set 5 ∷ set 6 ∷ get ∷ []) starting)
      ≡ some (0 ∷ 0 ∷ 5 ∷ 6 ∷ []))
    × (returned (perform_all serve_atomic (get ∷ set 5 ∷ set 6 ∷ get ∷ []) starting)
        ≡ some (0 ∷ 0 ∷ 5 ∷ 6 ∷ []))
handler-answers_example =
    handler-answers system once ran value system-Works (get ∷ set 5 ∷ set 6 ∷ get ∷ []) starting
      (inl refl)

-- A failed assertion with more to say, and with no handler.
abbrev place : SourceLocation
place = record { file = codes "a.c"; func = codes "f"; line = 7; column = 3 }

abbrev one_digit : ℕ → List ℕ
one_digit n = (b'0' + n) ∷ []

failed :
    throw_assert_x true true one_digit get_assert_handler_atomic
      (λ handler msg loc. done tt)
      (codes "x > 0")
      place
      (some (codes "x is 0"))
      starting
    ≡ done 1 (record {
      live = λ a. false;
      next = 1;
      os = record {
        handler = 0;
        mutex = none;
        errors = codes "Assertion failed: x > 0 (x is 0) at a.c:7:3 (f)\n";
        system = false;
      };
    })
unfolding throw_assert_x print_to get_assert_handler_atomic
failed = refl
