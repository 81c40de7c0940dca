-- ===== src/Lib.antt =====
-- Woolwire in antt: a verification library for the parts of the Go program that decide, order
-- and count, beside the program itself.
--
-- The program is a node of a private room. Members of a room are admitted by records that the
-- room's authority signs (internal/room), talk through a log of signed events that every node
-- replays for itself (internal/community), advertise the models that they host
-- (internal/catalog), serve each other's requests through a fair queue (internal/inference),
-- and sign receipts for it, from which a ranking is drawn (internal/contributions). All
-- signatures go over one payload format and one token encoding (internal/identity).
--
-- The files, and the code they are about:
--
-- In Base: what the parts share. Integers (Base.Numbers: Go's signed integers are read as
-- integers, since the code compares and prints them and adds small constants to clock times;
-- sums that leave 64 bits are not modelled), lists, byte strings (Base.Text: a Go string is the
-- list of its bytes), results (Base.Results: Go's pairs of a value and an error), Go maps as
-- association lists (Base.Maps, Base.Entries), folds that forget the order of their input
-- (Base.Perms) and the stable sort (Base.Sort).
--
-- In Identity: internal/identity/canonical.go and the token helpers of identity.go.
-- SigningPayload, writeField and fieldBytes are Identity.Payload; Identity.Injective shows that
-- the format is unambiguous. Ed25519, SHA-256, hex and base64 are the parameter Crypto, and
-- Identity.Keys says what a key pair promises of them.
--
-- In Room: internal/room/membership.go (Room.Membership), roster.go (Room.Roster: Apply, Get,
-- IsAdmitted, IsRemoved) and invitation.go (Room.Invitation: NewInvitation, Validate, Encode,
-- ParseInvitation). JSON, DEFLATE and base64 are parameters, the random bytes are arguments.
--
-- In Inference.Queue: internal/inference/queue.go. The queue's items are pointers into a store;
-- each section of the code under the mutex is one step, and a history (Inference.Queue.History)
-- is any sequence of steps, which covers every interleaving of the calls. The dispatch loop
-- runs on fuel, the number of the waiting requests and of the members in rotation, since each
-- round takes one off either.
--
-- In Inference.Prompt and Inference.Service: internal/inference/service.go. What the service
-- does under its state lock is one section (Inference.Service), a caller of the gate is its
-- sections in a row (Inference.Service.Calls), and Inference.Service.Steps has every order in
-- which they and the fired timers can come. What the runner answers is an argument.
-- Inference.Service.Requests is Execute up to the queue.
--
-- In Community: internal/community/event.go (Community.Event), sanitize.go (Community.Sanitize,
-- the regular expression as a matcher on bytes with the text's length as fuel, since each round
-- takes at least one byte) and materialize.go (Community.Materialize, with the order of each
-- map iteration as an argument).
--
-- In Contributions: internal/contributions/receipt.go: the receipts with their two signatures,
-- and CalculateLeaderboard. A calendar date is the number of its day.
--
-- In Catalog: internal/catalog/ad.go: the advertisements, and the catalog with each method as
-- one step.
--
-- In Hosting.Gguf: internal/hosting/gguf.go: the reader over the bytes of a file (Hosting.Gguf)
-- and readGGUFMetadata (Hosting.Gguf.Metadata). Its loops are bounded by the counts that they
-- read, so they need no fuel. Opening the file is left out, and strings.ToLower is a parameter.
--
-- In Hosting.Destination: internal/hosting/destination.go: the policy for addresses and ports;
-- Hosting.Destination.Endpoint has the check of an endpoint's URL and the guarded dialer, and
-- Hosting.Destination.Names and Hosting.Destination.Accepted say what an accepted endpoint is.
-- In Hosting.Companions: internal/hosting/companions.go; Hosting.Companions.Order says its
-- order of candidates without the code, and Hosting.Companions.Choice is about the choice.
--
-- In Modelpath: internal/modelpath/modelpath.go, Clean. Resolve, which asks the file system, is
-- left out.
--
-- In Localapi.ChatBranch: internal/localapi/chatbranch.go. The two walks through a conversation
-- run on fuel, one round for each message and one more, since each round visits a message that
-- was not visited.
--
--
-- In Runner: internal/runner/controller.go. Runner.ExtraArgs is ValidateExtraArgs,
-- Runner.OutputTail the kept end of the engine's output and its summary, Runner.Controller the
-- sections under the controller's lock, and Runner.Controller.Handlers and
-- Runner.Controller.Requests the handlers. What a launch of the engine comes to, the end of its
-- process during the launch included, and the resolution of a path are arguments; the list of
-- requesters that a process has answered is kept for the proofs only.
--
--
-- In Transport: internal/transport/memory.go, with transports and listeners as numbers in the
-- tables of the network.
--
--
-- In Sse and Peerapi: internal/sse/sse.go and internal/peerapi/inference.go. A response is its
-- first status and the chunks of its body. Peerapi puts together the checks, Execute
-- (Inference.Service.Requests), the queue and the stream; what JSON encodes, what an admitted
-- run yields and where the keepalive ticks meanwhile are arguments.
--
-- Not modelled: the other HTTP handlers, the store and the rest of the hosting code, which are
-- calls of the operating system, the network and the database, and the web client. A nil slice
-- and an empty one are not told apart. Error values carry which check failed, not the text of
-- the message.
pub mod Base
pub mod Identity
pub mod Room
pub mod Inference
pub mod Community
pub mod Contributions
pub mod Catalog
pub mod Hosting
pub mod Modelpath
pub mod Localapi
pub mod Runner
pub mod Transport
pub mod Sse
pub mod Peerapi
