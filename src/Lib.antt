-- ===== src/Lib.antt =====
-- structur3D: the store, the graph and the replication of documents of spheres and set operations.
--
-- A client has a store (an SQLite database), an open document (a graph of nodes and edges behind shared
-- pointers, and jobs that make its mesh) and an endpoint to its peers. A change by the user goes through
-- the document's interactor: it changes the store and sends a message. A message from a peer goes through
-- the endpoint to an interactor that changes the store, and the open document with it.
--
-- Prelude      names of the libraries, passed on; Boolean tests, lists, and the result of a call
-- Platform     what comes from outside the repository, as parameters: SQLite behind sqlpp11 (`Engine`,
--              `IsSql`), the text form of uuids (`Uuids`, `IsCodec`), `float` (`Floats`, `IsOrdered`) and
--              what a REAL column gives back (`stored`); Platform/Memory is an instance that runs.
--              Platform/Bitsery has bitsery's calls for fundamental values and what it does with its buffers
--              as parameters, and how it writes and reads arrays and texts
-- Data         include/data, src/data, src/base: the values, their codes (Codes), names (Names)
-- Db           src/db/DatabaseImpl.cpp and include/db: the templates that all tables share (Rows), the
--              calls that change the tables (State), the calls that read (Queries), histories of upserts of
--              all attributes (Upserts), the stores that calls lead to (Reached), which value counts among
--              equals (Priority, src/db/attribute_priority.cpp), the virtual functions of
--              include/db/Database.h as a record of operations, and what a client needs of their edges as
--              a record of laws (Interface), and the store by columns of
--              include/db/column/Column.h, include/db/utils/crdt_utils.h and include/db/ColumnDB.h (Column)
-- Graph        include/data/Graph.h, src/data/Graph.cpp, include/data/Edge.h, include/data/Tree.h
-- Mesh         src/mesh/MeshFactory.cpp: the shape of a forest, with `libfive::Tree` as a parameter, and the
--              vertices and normals of what libfive renders (Normals)
-- Wire         include/wire/Message.h and src/wire/ClientImpl.cpp
-- World        the objects that the parts of a client share, and the five functions of an interactor
--              (include/interactor)
-- Document     src/document/DocumentImpl.cpp, and its changes as a step relation (Edits)
-- Vm           src/vm/ViewmodelImpl.cpp: the three interactors (Interactors, Network), and the calls that
--              open and create a document (Open). The two sides of a client over time are step relations:
--              all that happens to it (Session), with its document against its store (InStep), and its
--              changes with the messages that they send (Replica); Concurrent has two clients that
--              exchange theirs
-- Utils        include/utils/Tool.h and src/utils/random_string.cpp; and the `serialize` templates of
--              include/utils/attribute_serialization.h with include/utils/Serializator.h (Serialize)
-- Tests        runs of the definitions and of the theorems at concrete inputs
--
-- How the code is read. A call gives the state after it, or `abort`: a failed `assert` (assertions are
-- taken as compiled in), a null pointer, or an exception that nothing catches. The virtual functions
-- `upsert` and `retract` are overloaded; each overload has a name of its own (`upsert_coord`). A uuid is
-- its 128-bit number, and the generators of uuids and the clock are arguments. A timestamp is a plain
-- number: the code compares timestamps and never computes with them, and they are taken below 2 ^ 63, where
-- SQLite's signed integers agree with the unsigned ones of the code. A shared pointer is an address in a
-- store of nodes, so a change of a node shows through every pointer to it. The job that makes a mesh is
-- recorded with the trees it was started with. `sub_tree_of` recurses on fuel, which bounds the depth of
-- the trees: any fuel above the length of the longest path is enough, and on a cycle the code itself does
-- not come back.
--
-- The rows of a result come in an order that SQL leaves to the engine, so the theorems speak of the rows
-- as sets. No theorem assumes anything of `Engine` but `IsSql`, what SQL says of these statements.
--
-- Not modelled: how a connection is opened (src/db/utils/db_utils.cpp); the server's stub
-- (src/wire/ServerController.cpp); the system clock (src/data/Timestamp.cpp); the `serialize` templates of
-- include/wire/Message.h, which nothing calls and which cannot be instantiated for a message, as they
-- bind `const` members to references that are not; libfive, sqlpp11 and bitsery, which are copies of
-- other projects. Of bitsery only what the code relies on is described.
pub mod Prelude
pub mod Platform
pub mod Data
pub mod Db
pub mod Graph
pub mod Mesh
pub mod Wire
pub mod World
pub mod Document
pub mod Vm
pub mod Utils
pub mod Tests
