-- ===== src/Python/State.antt =====
-- `PyState` of wrappers.rs: the application's state, one Python dictionary that every scope shares. `W`
-- is Python's heap, and a clone of the state is the same reference.
use trap.Shared.{List, [], ◌∷◌, Run, ◌>>=◌, pure}
use trap.Text.Utf8.{Str, str}
use trap.Python.Library.{PyErr}

-- `call_method0` and `call_method1` of a bound dictionary, by the name and the arguments of the method.
pub record Methods (P D W : Type 0) : Type 0 where
  pub call_method : D → Str → List P → Run W PyErr P

pub record PyState (D : Type 0) : Type 0 where
  pub state : D

module _ {P D W : Type 0} (methods : Methods P D W) (self : PyState D) where
  -- `PyState::__getitem__`
  unfoldable getitem : P → Run W PyErr P
  getitem key = methods.call_method self.state (str "__getitem__") (key ∷ [])

  -- `PyState::__delitem__`
  unfoldable delitem : P → Run W PyErr (Unit {0})
  delitem key = do _ ← methods.call_method self.state (str "__delitem__") (key ∷ []); pure tt

  -- `PyState::__setitem__`
  unfoldable setitem : P → P → Run W PyErr (Unit {0})
  setitem key value = do
    _ ← methods.call_method self.state (str "__setitem__") (key ∷ value ∷ [])
    pure tt

  unfoldable get : P → P → Run W PyErr P
  get key default = methods.call_method self.state (str "get") (key ∷ default ∷ [])

  unfoldable pop : P → P → Run W PyErr P
  pop key default = methods.call_method self.state (str "pop") (key ∷ default ∷ [])

  -- `PyState::__iter__`
  unfoldable iter : Run W PyErr P
  iter = methods.call_method self.state (str "__iter__") []

  -- `PyState::__str__` and `PyState::__repr__`
  unfoldable text : Run W PyErr P
  text = methods.call_method self.state (str "__str__") []

  unfoldable repr : Run W PyErr P
  repr = methods.call_method self.state (str "__repr__") []
