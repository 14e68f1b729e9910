-- ===== src/Lib.antt =====
-- Enterprise Platform: the state and request handling of its web client, an Angular application in
-- src/UI/Enterprise.Platform.Web.UI/ClientApp/src/app. The paths below are relative to that
-- folder.
--
-- Store models core/store. Store.EntityState, Store.Config and Store.Entity are the state of a
-- store that `createEntityStore` makes (base/base-entity.store.ts) and the state change of each
-- method at the call (`updateEntity` is `update_begin`), at the response (`updated`) and at the
-- failure (`update_failed`). Store.Machine puts them together: an `Instance` is the state with the
-- request in flight of each `rxMethod`, the rollback map, the toasts and the announcements, and
-- `step` takes an event, which is a call, a response or a failure. `switchMap` is that a new call
-- takes the place of the request in flight. The rollback map is one for all stores: what another
-- store's `updateEntity` writes there and takes out are events of their own, `peer_update` and
-- `peer_settled`, whose rows are of the store's type, which can be a sum. Store.Adapter and Store.Features are
-- base/store-features, and Store.Bus is cache-invalidation-bus.service.ts, whose events the stores
-- hear in `Event.peer_event`.
--
-- Users models features/users: Users.Types the wire types of data/user.types.ts, Users.Store the
-- state and the state changes of state/users.store.ts, Users.Session the store with its requests
-- in flight and the refreshes that follow a mutation, and Users.FieldErrors `fieldErrorMessage`.
--
-- Http models core/interceptors and two of core/services. Http.Keys, Http.Numbers and Http.Cache
-- are cache.interceptor.ts: `intercept` is what a request gets, `received` what its response
-- leaves in the cache, and Http.Cache.Capacity has sequences of both. Http.Errors is error.interceptor.ts, Http.Retry is retry.interceptor.ts,
-- alone and around the error interceptor as config/app.config.ts lists them, Http.Dedup is
-- dedup.interceptor.ts, Http.Loading and Http.Correlation are the loading and the correlation
-- interceptor with their services.
--
-- Auth models core/auth and core/guards: Auth.Permissions is auth.store.ts, Auth.Guards the route
-- guards, which read it, Auth.Monitor is session-monitor.service.ts, and Auth.ReturnUrl is
-- `buildAuthUrl` of auth.service.ts, whose session and sign-out Auth.Service has.
--
-- Table models the data table of shared/components/dph: Table.Values the JavaScript values of its
-- cells, Table.Types dph.types.ts, Table.Source data-table/data-source.ts and Table.Csv
-- data-table/export.util.ts. Of data-table.component.ts, Table.View is the state with its computed
-- values, Table.Handlers the event handlers, Table.Events their sequences, and Table.Pipeline the
-- way from a query through `debounceTime` and `switchMap` to the rows. The cells hold integers, NaN
-- or values that are no numbers; collation, dates and the numbers in texts are the record `Host`.
--
-- Forms models the schema form of shared/components/dph: Forms.Schema schema-form.types.ts and the
-- helpers that read a schema, Forms.SchemaForm the handlers of schema-form.component.ts and what it
-- submits, and Forms.SchemaForm.Shown the messages of its fields. What Angular's validators find in
-- a value is an argument. Forms.ServerErrors is core/forms/server-error-mapper.service.ts. Steps
-- models steps.component.ts beside the form, and Utils four helpers of shared/utils.
--
-- Api models the services that send requests: Api.BaseApi core/http/base-api.service.ts,
-- Api.UsersApi features/users/data/users-api.service.ts, and Api.Params the interface to HttpParams
-- with its laws. Store.Persistence is base/store-features/with-persistence.feature.ts, with JSON as
-- an argument.
--
-- Services.StatusBanner is core/services/status-banner.service.ts. Models is core/models. Common
-- has the shared names: lists of ids, dictionaries as association lists, integers, and texts with
-- their letters in upper and lower case, their white space and their parts. Tests has concrete runs.
--
-- A `Record` or a `Map` is an association list with one entry to a key as `insert` keeps it.
-- Numbers are natural numbers: times are epoch milliseconds, and the numbers of the source stay
-- below 2 ^ 53, where its arithmetic is exact. Where a value may be NaN or negative (the TTL
-- header), the model has a type of its own. The clock, `Math.random`, `Date.parse` and
-- `encodeURIComponent` are arguments. `toLowerCase`, `toUpperCase` and `sort` are modelled on
-- ASCII texts. There is no fuel: every loop of the model is structural, the retry by its count.
-- HttpHeaders and HttpParams of Angular are the interface `HttpMaps`, whose laws say that a
-- deleted header is gone and that the others, whose names differ in more than case, stay, that a
-- name is looked up without regard to case, that the names of the headers are all listed, and that
-- headers made from a literal have its values. The paginator's pages have at least one row: with
-- none, the source's `onPage` divides by zero and sets a page that is no number.
--
-- Not modelled: the templates, the components but the data table, the schema form and the steps,
-- logging, and the .NET services behind the API, whose responses are arguments of the events.
pub mod Common
pub mod Models
pub mod Store
pub mod Users
pub mod Http
pub mod Auth
pub mod Services
pub mod Table
pub mod Forms
pub mod Utils
pub mod Steps
pub mod Api
pub mod Tests
