-- ===== src/Lib.antt =====
-- The ephemeral credential broker: a Kubernetes controller that mints short-lived credentials through
-- providers, keeps each one in a target Secret, rotates it before it expires, and cleans up when its
-- EphemeralCredential is deleted.
--
-- Parts and their files:
--
-- - api/v1alpha1/ephemeralcredential_types.go: Api.antt has the resource and its constants, field by
--   field, with the fields of the Kubernetes types that the broker uses. Api/Error.antt has Go errors
--   (a sentinel, a wrapped error, a foreign one) and unrendered texts. Api/Admission.antt has the
--   validation markers of the spec's own fields as a predicate.
-- - internal/provider/provider.go: Provider.antt, an interface as a record of operations over an
--   abstract world, and the registry; Provider/Scope.antt has the values that travel as `any`.
--   Lemmas on the registry are in Provider/Lookup.antt.
-- - internal/controller/ephemeralcredential_controller.go:
--   - Rotation.antt: requestedRotateBefore, grantedLifetime, clampRotateBefore, needsMint and
--     requeueAfter; lemmas in Rotation/Window.antt, Rotation/Schedule.antt (after a
--     mint) and Rotation/Waiting.antt (between mints).
--   - TargetSecret.antt: the closure of writeTargetSecret and previouslyManagedKeys; lemmas in
--     TargetSecret/Entries.antt (one write), TargetSecret/Rewrite.antt (two writes) and
--     TargetSecret/Ordering.antt (the order of a Go map).
--   - Handle.antt: encodeHandle and decodeHandle, over an executable base64 in Handle/Base64.antt.
--   - Cluster.antt: what the reconciler is given, as records of parameters.
--   - Controller.antt and below: now, event and setReadyCondition; Scope (buildScope), Status
--     (targetSecretExists, deleteTargetSecret, failStatus), Delete (reconcileDelete), Mint (the part
--     of Reconcile from the scope on) and Reconcile (the rest of it).
--   - Controller/Admitted.antt: what an admitted spec and a built scope are to the code after them.
--   - Controller/Conditions.antt: what the conditions of a status say, and what
--     meta.SetStatusCondition documents, as a hypothesis.
--   - Controller/Traced.antt wraps the client and the providers so that each write is also noted with
--     its outcome; the code that runs is the same. Controller/Protocol.antt and below are about the
--     order of the noted writes, Controller/Outcome.antt and below about what a run ends with.
-- - internal/provider/github/github.go: Github.antt has the provider's fields, parsePrivateKey and
--   signAppJWT, Github/Token.antt the API calls, Github/Mint.antt Mint and Revoke, Github/Http.antt
--   the requests and the libraries' functions, which are parameters (its Scope is in
--   Provider/Scope.antt). Github/Requests.antt wraps the HTTP client so that each request is noted
--   with its answer; Github/Granted.antt and Github/Refused.antt are about what a Mint sends, and
--   Github/Claims.antt about the times in the JWT.
-- - cmd/main.go, api/v1alpha1/groupversion_info.go and SetupWithManager: Main.antt has init and main,
--   Main/Options.antt what flag and controller-runtime give and take. Main/Booted.antt notes the calls
--   of the set-up; Main/Wired.antt is about the reconciler that main builds, down to GitHub.
-- - api/v1alpha1/zz_generated.deepcopy.go: DeepCopy.antt has DeepCopyInto, DeepCopy and DeepCopyObject
--   of every type, DeepCopy/Objects.antt the types with their pointers and DeepCopy/Memory.antt
--   addresses and allocation. DeepCopy/Views.antt says what a deep copy is and has the lemmas on
--   pointers, slices, maps and structs; DeepCopy/Configs.antt and DeepCopy/Apart.antt go through the
--   types.
--
-- Base has shared names, integers and dictionaries; Effects.antt the actions (a result and the world
-- after it, kept also when there is an error) that the methods are written in; GoTime.antt and
-- GoStrings.antt what the code uses of Go's time, strings, sort and slices packages. Tests has small
-- runs.
--
-- A Go value that several functions change through a pointer is passed on and returned: the client's
-- Update and Status().Update return the object as the server answered, and the code goes on with that
-- one. On an error the source returns at once, so the changed object is never read again. A Go map is
-- an association list; a loop over it visits it in the order of the list (in a deep copy, from its
-- end), and a theorem about any list is one about every order. In the deep copies a pointer is its
-- address with what is there while the copy is made.
--
-- Bounds: a Duration is an int64 of nanoseconds, and its operations wrap or saturate as Go's do. A
-- Time is not bounded. Every loop is structural recursion on a list, so there is no fuel.
--
-- Parameters: the Kubernetes client, controllerutil, meta.SetStatusCondition, apierrors.IsNotFound,
-- the event recorder, the clock, the providers, encoding/json, net/http, encoding/pem and the crypto
-- packages; for the process, flag.Parse and the manager, whose making includes
-- ctrl.GetConfigOrDie, which ends the process by itself; for the deep copies, those of the types of
-- apimachinery. Theorems hold for every answer of theirs; where one relies on documented behaviour it
-- is a named hypothesis.
--
-- Not modelled: log output, the rendering of texts by fmt, closing a response body, and the manifests.
-- Two reconciles of one object do not interleave, as controller-runtime promises; others' writes
-- between the calls of one reconcile are answers of the client.
pub mod Base
pub mod GoTime
pub mod GoStrings
pub mod Api
pub mod Effects
pub mod Provider
pub mod Rotation
pub mod TargetSecret
pub mod Handle
pub mod Cluster
pub mod Controller
pub mod Github
pub mod Main
pub mod DeepCopy
pub mod Tests
