-- ===== src/Lib.antt =====
-- The adaptation of NRI, the node resource interface: the ownership records and the collected result of
-- its requests, the synchronization of plugins, and the multiplexer of their connections.
--
-- Plugins answer the requests of a container runtime one after the other, in the order of their
-- indices. pkg/adaptation collects the answers to one request into a `result`: each plugin's
-- adjustment of the container that is created, and its updates of other containers, is applied to the
-- request that the next plugin sees and to the reply that the runtime gets. Before a value is set,
-- the plugin claims it from `OwningPlugins` of pkg/api, so that two plugins never set the same one;
-- a plugin may clear a value first, and then set it.
--
-- Base holds what every part uses. Base.Map has the maps of Go as association lists, Base.Exec the
-- code that writes behind pointers and may return an error (`Outcome` and the state that was
-- written, also beside an error; a run-time panic is the error `panic`), Base.Int the integers.
--
-- Api is the package pkg/api.
--   Api.Removal: the removal markers of pkg/api/helpers.go.
--   Api.Types: the messages of pkg/api/api.pb.go, with the fields that the modelled code uses.
--   Api.Field, Api.Owners: pkg/api/owners.go. Api.Owners has the records and the generic claims,
--     clears and lookups (`claimCompound`, `claimSimple`, `clearCompound`, `clearSimple`,
--     `compoundOwner`, `simpleOwner`); Api.Owners.FieldClaims and Api.Owners.FieldLookups are the
--     methods of `FieldOwners` for each field, Api.Owners.Claims and Api.Owners.Lookups those of
--     `OwningPlugins`. Api.Owners.Spec is the table of places that they implement: each is free,
--     owned, or cleared by a plugin. Api.Owners.Refines and Api.Owners.Trace relate the two,
--     Api.Owners.Exclusive and Api.Owners.Calls draw from it what clients rely on, and
--     Api.Owners.Table pairs the claim of each field with its lookup.
--   Api.Messages: the OCI form of environment variables (pkg/api/env.go) and the removal tests of
--     the messages. Api.PluginName: the names of plugins (pkg/api/plugin.go).
--   Api.Event: the events and their mask (pkg/api/event.go).
--
-- Adaptation is `result` of pkg/adaptation/result.go. `Creation` (Adaptation.State) holds what the
-- adjustments work on: `request.create.Container`, `reply.adjust` and `owners`.
--   Adaptation.Entries, Adaptation.Lists: `adjustMounts`, `adjustDevices`, `adjustEnv`,
--     `adjustCDIDevices`, `adjustRlimits`, `adjustNamespaces`.
--   Adaptation.Maps: `adjustAnnotations`, `adjustSysctl`, `adjustLinuxNetDevices`.
--   Adaptation.Settings: `adjustArgs`, `adjustHooks`, `adjustCgroupsPath`, `adjustOomScoreAdj`,
--     `adjustIOPriority`, `adjustSeccompPolicy`, `adjustLinuxScheduler`, `adjustRdt`.
--   Adaptation.Limits: `adjustMemoryResource`, `adjustCPUResource`, `adjustResources`. Its children
--     relate each step to the function that it applies to the resources of the container and of the
--     reply, and compose these.
--   Adaptation.Adjust: `adjust`, which runs all of these. Adaptation.Copy: `LinuxResources.Copy`.
--   Adaptation.Update: `Result`, with `update`, `updateResources`, `getContainerUpdate`, `apply`, the
--     responses, and the loops of pkg/adaptation/adaptation.go over the plugins.
--     Its children are about the list of updates, failures, what updates own, and accepted updates.
--   Adaptation.Sync: `plugin.synchronize` and `recalcObjsPerSyncMsg` of pkg/adaptation/plugin.go, which
--     send the pods and containers of the runtime to a new plugin. `Syncing` has the variables of
--     the loop, `sync_round` is one round of it. The plugin behind its connection is the record
--     `SyncPeer`, the arithmetic on `float64` the parameter `scaled`. Its children: Rounds has the
--     cases of a round, Delivery what a plugin has got at the end, Progress the number of rounds,
--     Calls what the calls keep of the plugin, Stall and Clamp the
--     states that the scaling of the numbers does not foresee. That the request is made with a timeout
--     is that a call may fail.
--   Adaptation.Relay: `createContainer`, `updateContainer`, `stopContainer`, `updatePodSandbox`,
--     `StateChange` and `ValidateContainerAdjustment` of a plugin (pkg/adaptation/plugin.go), with
--     its event mask and with `isFatalError`. What the plugins answer is the record `PluginApi`.
--   Adaptation.Requests: the requests of pkg/adaptation/adaptation.go on the record `Runtime`,
--     whose plugins and validators are addresses of the same objects. Replies has what a plugin
--     says, Collecting relates the loops to what the plugins reply and to the loop over answers of
--     Adaptation.Update, Ordering is about lists of plugins that are in an order. The validators
--     answer in the order of their list; each has its own connection, so another order changes
--     only which of several errors is returned.
--   Adaptation.Registration: `RegisterPlugin` of pkg/adaptation/plugin.go, `sortPlugins`, the plugins that
--     `startPlugins` keeps, the listing of a plugin at the end of `acceptPluginConnections`, and
--     `stopPlugins`. What is relied on of Go's `sort.Slice` is the record `SortSlice`. Indices is about the order of strings, Keeps about what requests leave of the
--     plugins, InOrder and Accepted about registrations, Order about what may happen, as the step
--     relation `Step`; a plugin in the lists that registers again with another index is left out,
--     since the lists are not sorted then.
--
-- Net.Multiplex is pkg/net/multiplex/mux.go, logical connections over one trunk.
--   Net.Multiplex.Frames: `mux.write` and the reading of frames in `mux.reader`; the trunk, a
--     `net.Conn`, is the record `Trunk`. Framing is about the bytes of frames, Writing about `mux.write`.
--   Net.Multiplex.Conns: `mux` and `conn` with `Open`, `Close`, `Read`, `Write` and the reader, as steps
--     on the record `Mux`. Connections are objects in a store (`store`, `next`), since one that was
--     closed may still be held. What a lock or a channel makes one is one step; where a select has
--     two cases that are ready, an argument says which is taken. A read queue length of 0 is not
--     meant: a channel without a buffer passes a message on only while a read waits.
--   Net.Multiplex.Queues, Arrivals, Reads, Returns, Fifo and Bounds are about the queues of the
--     connections and what is read from them,
--     Valid and ValidRuns about the table of connections and the error that is kept, Messages and
--     Delivery about the two ends of a trunk together.
--
-- Stub is pkg/stub/stub.go, the plugin's end of the protocol.
--   Stub.Handlers: the handlers that `setupHandlers` finds, with the mask of events, `Configure`, and
--     the requests as the stub passes them on. A handler works on the plugin's own state. Stub.Subscription
--     is about the mask.
--   Stub.Synchronize: `Synchronize`, `collectSync` and `deliverSync`, and the stub as the `SyncPeer` of
--     Adaptation.Sync, behind a connection that rejects requests as it likes. Stub.Collecting relates
--     what the stub has collected to what it has answered, Stub.Delivered is about the whole way
--     from the adaptation to the handler.
--
-- Validator is the default validator, plugins/default-validator/default-validator.go, with
-- `GetEffectiveAnnotation` of pkg/plugin/annotations.go and `GetPluginMap` of pkg/api/validate.go;
-- the parser of YAML is a parameter. Validator.Required is about the required plugins,
-- Validator.Permits about the adjustment, Validator.Accepts about the whole.
--
-- Generate is `AdjustAnnotations` of pkg/runtime-tools/generate/generate.go, and `AdjustSysctl`, whose
-- loop is the same, over the third-party Spec generator as the record `SpecEntries`.
-- Generate.Entries has what the loop does to a key, Generate.Orders what comes of the reply of
-- `adjustAnnotations`.
--
-- The modules named Tests run the theorems at concrete containers, plugins and connections.
--
-- Loops over lists are recursions on the list. The loops of `synchronize`, of `mux.write` and of the
-- reading of frames recur on a number of rounds: `write` is given one more than the bytes of its
-- buffer, which is enough, since each round sends one at least; a reader of frames needs one more
-- than there are frames; for `synchronize` the number is that of its theorems.
--
-- The order in which Go ranges over a map is that of the list that stands for it, or a parameter
-- (`Ranges`) where the map is made by the code itself. An error keeps the values of its message
-- and not its text. Integers are only copied here, so they have no bounds, but for the two words
-- of a frame's header. Not modelled: the rest of
-- pkg/adaptation/plugin.go, pkg/net and pkg/stub, which start plugins and connect to them; the rest of
-- the Spec generator; logging and the sample plugins; the fields of messages that no modelled code reads.
pub mod Base
pub mod Api
pub mod Adaptation
pub mod Net
pub mod Stub
pub mod Validator
pub mod Generate
