-- ===== src/Network/Entering.antt =====
-- `Do` of a network namespace, which the CNI plugins' library provides.
use purenet.Base.{◌≡◌, Option, none, some, Str}
use purenet.Errors.{external, err}
use purenet.Network.Kernel.{Netns, Kernel}
use purenet.Network.Action.{Action}

-- What is documented of it: it runs the function in the namespace, or, where that cannot be
-- entered, gives an error without running it, and then goes back to where the caller was. The way in and
-- the way out are the library's own.
pub record Entering (K : Kernel) : Type 1 where
  pub enter : Netns → K.State → Option Str × K.State
  pub leave : K.State → K.State → K.State
  pub ns_do-entered :
      {A : Type 0} (ns : Netns) (act : Action K.State A) (s : K.State)
      → (enter ns s).0 ≡ none
      → K.ns_do ns act s ≡ ((act (enter ns s).1).0, leave s (act (enter ns s).1).1)
  pub ns_do-refused :
      {A : Type 0} (ns : Netns) (act : Action K.State A) (s : K.State) (e : Str)
      → (enter ns s).0 ≡ some e
      → K.ns_do ns act s ≡ (err (external e), (enter ns s).1)
