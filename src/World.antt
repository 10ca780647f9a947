-- ===== src/World.antt =====
-- The objects that a client's parts share: its store, the messages that it sent, the nodes behind
-- shared pointers, and the open document. include/document/DocumentImpl.h gives the document's fields;
-- a job of the mesh factory is the forest that it was started with.
use structur3d.Prelude.{suc, Option, List, ◌++◌, [], ◌∷◌, Outcome, ok, ◌>>=◌}
use structur3d.Platform.{Floats}
use structur3d.Data.{Uid, Timestamp, Node, Attribute}
use structur3d.Graph.{Ptr, Store, Graph, Forest, update}
use structur3d.Wire.Message.{Message}
use structur3d.Db.Queries.{DocumentWithName}

pub record Document : Type 0 where
  pub id : Uid
  pub graph : Graph
  pub jobs : List Forest

pub record World (f : Floats) (S : Type 0) : Type 0 where
  pub db : S
  -- the calls of `network_->send`, oldest first
  pub sent : List (Message f)
  pub store : Store f
  -- the next free address
  pub next : Ptr
  pub current : Option Document
  pub documents : List DocumentWithName

-- include/interactor/Interactor.h, and ModularInteractor, whose five methods call its five functions
pub record Interactor (f : Floats) (S : Type 0) : Type 0 where
  pub create : Ptr → Uid → Timestamp → World f S → Outcome (World f S)
  pub connect : Uid → Uid → Timestamp → World f S → Outcome (World f S)
  pub upsert : Uid → Attribute f → Timestamp → World f S → Outcome (World f S)
  pub remove : Ptr → Uid → Timestamp → World f S → Outcome (World f S)
  pub disconnect : Uid → Uid → Timestamp → World f S → Outcome (World f S)

module _ {f : Floats} {S : Type 0} where
  -- A call of the store.
  abbrev pub on_db : (S → Outcome S) → World f S → Outcome (World f S)
  on_db call w = call w.db >>= λ db. ok (record w { db = db })

  abbrev pub send : Message f → World f S → Outcome (World f S)
  send message w = ok (record w { sent = w.sent ++ message ∷ [] })

  -- `std::make_shared`: the node at a new address
  abbrev pub allocate : Node f → World f S → World f S
  allocate node w = record w { store = update w.store w.next node; next = suc w.next }
