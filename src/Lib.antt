-- ===== src/Lib.antt =====
-- Verification of the native controller host of wotex-matter.
--
-- The host is a C++ program (native/src, native/include/wotex_matter) between an Elixir
-- application and the Matter SDK. Requests arrive as lines of JSON, are admitted, and act on the
-- SDK through a controller; replies and the reports of subscriptions leave as lines of JSON. The
-- parts modelled:
--
-- - Input has BoundedInput of native/include/wotex_matter/input.hpp, which splits the byte stream
--   into lines. The bytes of buffer_ between offset_ and size_ are a list, and what poll and read
--   answer is an argument of `next`. The loops are structural recursions on the buffer; Next reads
--   at most once, so that two scans are enough.
-- - Sax has BoundedSax of native/src/protocol.cpp, which checks the events of the JSON parser. The
--   parser is nlohmann's; a run of it is the list of the events that it reports.
-- - Value has native/src/value.cpp: the registry of descriptors (Registry), `convert_value`
--   (Convert), `validate_element` (Validate) and the access control lists (AccessControl). An
--   element holds a list of elements, which is a second data type of a mutual block.
-- - Interaction has native/src/interaction.cpp: the checks of requests and responses (Validity),
--   which use `validate_element`, and MutationCompletion (Completion), whose atomic operations are
--   steps.
-- - Commissioning has native/src/commissioning.cpp.
-- - Subscription has, of native/src/subscription.cpp, the checks of subscription requests and
--   reports (Types), SubscriptionBuffer (Buffer), which holds the reports of a subscription until
--   the host is told of it, and SubscriptionRecovery (Recovery).
-- - Credit has ReportCreditManager of native/src/subscription.cpp, the flow control of reports
--   between the subscriptions and the output. Table is the map of streams, as an association list;
--   State has the record, AddStream, CanTransmit and snapshot; Send has Submit and TransmitFrame;
--   Settle has Acknowledge and Drain; Retire has Retire, BeginRecovery and the queries. The
--   callback transmit_ is a field of the state: a function of the calls made of it so far, so that
--   it may answer differently each time. The loops over queued_ and outstanding_ are structural
--   recursions on them.
-- - Output has BoundedOutput of native/src/protocol.cpp, the frames that wait for the writer
--   thread. Each section under the mutex is one operation, and an interleaving is a list of calls.
-- - Protocol has the JSON shapes of the requests of HostProtocol in native/src/protocol.cpp:
--   Envelopes the request around its parameters and the options of the session, Parameters and
--   Services what each operation takes, Elements the elements, as they are read and written, and
--   Responses the results of interactions. A request becomes the structures of Interaction,
--   Subscription and Commissioning, and their checks decide on it. Reading an element recurses on
--   the levels left of the nine that the source allows.
-- - Storage has DurableStorage of native/src/storage.cpp, the controller's key-value store: Base64
--   and Utf8 have the texts, Values the std::map as a list in the order of its keys, Document
--   SerializeState and ParseState, Files the system calls on the three files of the directory,
--   Commit the file steps of a commit, and Store the members and operations of the class. What the
--   system answers to each call is a list, and the process stops (a crash) where the list ends: the
--   loops of WriteAll and ReadState are structural recursions on it. Files keep what was written
--   before a crash of the process; a loss of power, where only fsync counts, is not modelled, nor
--   what the system's tests of owners, modes and locks look at: those are answers.
-- - Json has the documents of the JSON library as the host reads them. For the store, the library
--   itself is two parameters, `dump` and `parse`; what the store relies on is the hypothesis
--   `ReadsBack` of Storage/Store/Durable.
--
-- Machine integers are natural numbers; sums and differences of 64 bits are `add64` and `sub64` of
-- Base/Words, with their wrap-around. Strings are lists of bytes. Examples has runs on concrete
-- data.
--
-- Not modelled: the dispatch of requests and the frames of replies and reports of HostProtocol
-- (native/src/protocol.cpp), the authority (native/src/authority.cpp), the controller (native/src/controller.cpp), which is made of
-- callbacks of the Matter SDK, the SDK's storage adapter, logging and process start-up, the
-- doubles under native/testing, and the Elixir side under lib. SeedCountersForTesting, a test
-- entry of ReportCreditManager, is left out.
pub mod Base
pub mod Value
pub mod Interaction
pub mod Commissioning
pub mod Subscription
pub mod Input
pub mod Output
pub mod Sax
pub mod Credit
pub mod Json
pub mod Storage
pub mod Protocol
mod Examples
