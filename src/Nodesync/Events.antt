-- ===== src/Nodesync/Events.antt =====
-- What the informer of client-go calls: the functions that `Run` registers in both controllers,
-- which unpack the object and call the handler. What a handler calls is an argument, as in
-- Handlers.
use purenet.Base.{List, [], ◌∷◌, Str}
use purenet.Network.Action.{Action}
use purenet.Nodesync.Node.{Node, Controller}
use purenet.Nodesync.Handlers.{on_add, on_update, on_delete}

-- An `interface{}` of client-go: a node, a `cache.DeletedFinalStateUnknown`, or anything else.
pub data Object : Type 0 where
  node : Node → Object
  tombstone : Object → Object
  other : Object

pub data Event : Type 0 where
  added : Object → Event
  updated : Object → Object → Event
  deleted : Object → Event

module _ {S : Type 0} (add del : Str → Str → Action S (Unit {0})) where
  abbrev pub add_func : Object → Controller × S → Controller × S
  add_func (node n) (c, s) = on_add add del n c s
  add_func (tombstone o) w = w
  add_func other w = w

  abbrev pub update_func : Object → Object → Controller × S → Controller × S
  update_func (node old) (node new) (c, s) = on_update add del old new c s
  update_func (node old) (tombstone o) w = w
  update_func (node old) other w = w
  update_func (tombstone o) new w = w
  update_func other new w = w

  -- The node of an object or of the object in a tombstone is taken, deeper ones are not.
  abbrev pub delete_func : Object → Controller × S → Controller × S
  delete_func (node n) (c, s) = on_delete add del n c s
  delete_func (tombstone (node n)) (c, s) = on_delete add del n c s
  delete_func (tombstone (tombstone o)) w = w
  delete_func (tombstone other) w = w
  delete_func other w = w

  unfoldable pub deliver : Event → Controller × S → Controller × S
  deliver (added o) w = add_func o w
  deliver (updated o p) w = update_func o p w
  deliver (deleted o) w = delete_func o w

  unfoldable pub deliver_all : List Event → Controller × S → Controller × S
  unfolding deliver
  deliver_all [] w = w
  deliver_all (e ∷ es) w = deliver_all es (deliver e w)
