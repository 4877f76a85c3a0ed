-- ===== src/Lib.antt =====
-- Verification of the core of egauth, an authentication library in Go: what a login is, what session
-- it may start, how that session is stored, and how it ends.
--
-- A login journey is a `Pending`. Each factor service reports one `Verified`, `Pending.Add` collects
-- them, and `Admit` turns the Pending into `SessionAttrs` or asks for a second factor. A session then
-- moves by `Reauthenticate`, `FactorEnrolled`, `PasswordChanged` and `Renew`. Both kinds of value are
-- persisted as the bytes that `Seal` and `SealPending` write. A session record carries the sealed
-- bytes, and a session store keeps the records by the digest of their token, rotates them, revokes
-- them and publishes the revocations in a feed. A token store keeps families of refresh tokens: each
-- rotation consumes one token and issues the next, and a reuse revokes the family; it also keeps API
-- keys.
-- A ceremony is a short-lived artefact of a login that carries a sealed Pending, such as a magic link or
-- a login that waits for its second factor: a ceremony store keeps its record under the digest of a random
-- handle, gives it out once, and bounds its failures and its number per scope. Each process caches the
-- state of families and follows the feeds of the stores to drop what changed.
--
-- Files:
--   Base             Boolean tests, lists, results, and association lists for Go maps
--   Core/Factor      internal/core/factor.go: the factor table, unions, roles, AMR values
--   Core/Policy      internal/core/tenant.go, policy.go, errors.go
--   Core/Verified    internal/core/pending.go: Verified, NewVerified, checkVerifiedShape
--   Core/Pending     internal/core/pending.go and attrs.go: NewPending, Bind, WithBindHash, Add
--   Core/Attrs       internal/core/attrs.go: SessionAttrs, FreshWithin; PendingForReauth, checkAttrs
--   Core/Transitions internal/core/transitions.go: Admit and the four transitions of a session
--   Core/Codec       internal/core/codec.go: the encoder and the decoder, field by field
--   Core/Sealed      internal/core/codec.go: Seal, Unseal, SealPending, UnsealPending
--   Core/Reach       the values that the transitions can produce
--   Sessions/Record  store/sessions/record.go: rows, checkRow, Restore, NewRecord
--   Sessions/Store   store/sessions/memory/store.go: every operation of the in-memory store
--                    and in Store/Spec what each operation means without the index of digests
--   Sessions/Feed    store/sessions/memory/store.go: RevocationsSince and its binary search
--   Tokens/Record    store/tokens/record.go, errors.go: refresh rows and NewRefreshRecord
--   Tokens/ApiKey    store/tokens/apikey.go: API keys and Validate
--   Tokens/Store     store/tokens/memory/store.go: families of refresh tokens, their rotation, reissue
--                    and revocation, and API keys (Store/Families, Store/Keys); RotationRequest,
--                    ReissueRequest, FamilyState and ReuseGrace are those of store/tokens/store.go
--   Ceremony/Kind    store/ceremony/kind.go: the kinds, their lifetimes, caps and attempt bounds
--   Ceremony/Record  store/ceremony/record.go, errors.go: scopes, records, NewRecord, Restore, Validate
--   Ceremony/Store   store/ceremony/memory/store.go: every operation of the in-memory store
--   Revoke/Lru       internal/revoke/lru.go: a bounded cache, the linked nodes as the list of them
--   Revoke/Follower  internal/revoke/revoke.go: the cache that follows a change feed, one critical
--                    section at a time, and in Follower/Sound its interleavings with a source
--   Revoke/Families  internal/revoke/families.go: Live, ForgetSubject and ForgetTenant
--   Tests            concrete runs
--
-- How Go is read:
--   * An error is the sentinel that errors.Join puts first. A nil and an empty byte slice are one
--     value, []. A clone is the value itself.
--   * A UUID is the number that its 16 bytes spell, so the order of ids is that of numbers. uuid.New()
--     is the argument `fresh`.
--   * An instant is the number of nanoseconds since Go's zero time, 0 being that zero time; instants
--     before it and negative durations are not modelled. Time.Sub saturates as in Go.
--   * Integers of 64 bits wrap around where the code adds to them.
--   * The context is a Boolean, true when it is done, and the clock's reading is an argument.
--     Truncation to the microsecond is written out. A method of a store is one critical section of
--     its mutex, hence one step.
--   * A Go map is an association list; where the code iterates over one, the order is that of the list
--     and the code's own sort follows. A pointer that a map holds is the row under its key.
--   * A decoder's sticky error is the result `none`.
--
-- Loops recurse over their lists. Two have fuel: a uvarint is written and read in ten rounds, enough
-- for 64 bits, and the binary search has as many rounds as the feed has entries, which is proved to
-- be enough.
--
-- Not modelled: redirect targets (a Pending keeps the string), the remaining stores, the HTTP handlers,
-- key management and sealing keys, and the SQL adapters. The sealer of a session or refresh record and
-- the opener of a sealed Pending of a ceremony record are arguments.
-- Of the token store, RevocationsSince is left out: it reads its feed by the binary search that is modelled
-- for the session store. The number of failures that a ceremony row may carry is never negative here.
-- The source that a revocation cache follows is any value of each key and the log of the keys that
-- changed, whose pages are the changes between two positions; the loop of Poll, its limit of pages, the
-- pollers and the caches of epochs and keysets over the same follower are left out.
pub mod Base
pub mod Core
pub mod Sessions
pub mod Tokens
pub mod Ceremony
pub mod Revoke
pub mod Tests
