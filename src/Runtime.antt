-- ===== src/Runtime.antt =====
-- The parts of Go's runtime whose state the program's state points to: contexts with their
-- cancellation, and channels that are made and closed.
use gorch.Base.{ℕ, suc, ◌==◌, if◌then◌else◌, Bool, true, false, ◌||◌, List, [], ◌∷◌, Option, some}

-- A context: its own number, then those of its ancestors.
abbrev pub Context : Type 0
Context = List ℕ

abbrev pub Chan : Type 0
Chan = ℕ

pub record Runtime : Type 0 where
  pub cancelled : ℕ → Bool
  pub next_context : ℕ
  pub closed : Chan → Bool
  pub next_chan : Chan

abbrev pub update : (ℕ → Bool) → ℕ → ℕ → Bool
update f k j = if j == k then true else f j

-- ctx.Err() != nil: the context or one of its ancestors was cancelled.
abbrev pub has_err : Runtime → Context → Bool
has_err rt [] = false
has_err rt (c ∷ cs) = rt.cancelled c || has_err rt cs

-- context.WithCancel(parent): the new context.
abbrev pub with_cancel : Runtime → Context → Context
with_cancel rt parent = rt.next_context ∷ parent

abbrev pub new_context : Runtime → Runtime
new_context rt = record rt { next_context = suc rt.next_context }

-- A call of the context's cancel func, if there is one.
abbrev pub cancel? : Runtime → Option Context → Runtime
cancel? rt (some (c ∷ cs)) = record rt { cancelled = update rt.cancelled c }
cancel? rt _ = rt

abbrev pub make_chan : Runtime → Runtime
make_chan rt = record rt { next_chan = suc rt.next_chan }

abbrev pub close_chan : Runtime → Chan → Runtime
close_chan rt c = record rt { closed = update rt.closed c }
