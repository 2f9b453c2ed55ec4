-- ===== src/Lib.antt =====
-- A model of the core rules of the Schul-Cloud server, with proofs.
--
-- The server is a feathers application: a request runs through the hooks of its service, which read
-- and change the request's context or refuse it, and through functions that the hooks call. The
-- parts modelled here are the rules on who may do what (roles and permissions, schools, courses,
-- teams, files, homework, submissions, users) and the state that decides it (logins, tokens,
-- registration pins, consents, school years).
--
-- Files and the code that they follow, from the root of the repository:
--
-- - Base: the tests, lists and errors that all parts share. Base.Lists has the array methods,
--   Base.Errors the errors of src/errors as values, with a result type for code that throws.
-- - ObjectId: src/helper/compare.js, isValid and equal.
-- - Hook: src/hooks/index.js. Hook.Permission has hasPermission and hasSchoolPermission, Hook.School
--   restrictToCurrentSchool and denyIfNotCurrentSchool, Hook.Course restrictToUsersOwnCourses and
--   checkCorrectCourseOrTeamId, Hook.Mail sendEmail, Hook.Request the hooks on queries and results.
-- - Role: src/services/role. Role.Resolve is resolvePermissions of model.js, with the cache of
--   src/utils/cache.js in Role.Resolve.Cache; Role.BySchool is services/userPermissions.js and
--   services/userRoles.js; Role.Sort is utils/rolesHelper.js.
-- - Scope: src/services/helpers/scopePermissions, checkScopePermissions and ScopePermissionService,
--   with the handler of courses in src/services/user-group/services/coursePermission.js.
-- - FileAccess: src/services/fileStorage/utils/filePermissionHelper.js; FileAccess.Team is its
--   checkTeamPermission, which uses the order of Role.Sort; FileAccess.Team.Steps describes its loop
--   without fuel, and FileAccess.Membership its members by the lists themselves.
-- - SchoolYear: src/services/school/logic/year.js, the class SchoolYearFacade.
-- - Consent: src/services/consent/utils/consent.js; Consent.Filter is createConsentFilterQuery.
-- - Login: src/services/authentication/hooks/index.js; Login.Whitelist has the whitelist of tokens
--   there and in src/utils/redis.js.
-- - Pin: src/services/user/hooks/registrationPins.js, with the find of the service, which
--   UserHooks.Registration uses.
-- - Account: src/services/account/hooks/index.js.
-- - Homework: src/services/homework/hooks/index.js; Homework.Rating is its getAverageRating, and
--   Homework.Submission is src/services/homework/hooks/submissions.js.
-- - UserUc: src/components/helper/uc.helper.js and src/components/user/uc/users.uc.js.
-- - ErrorHandler: src/middleware/errorHandler.js.
-- - Team: src/services/teams/hooks/index.js; Team.Users is the list of users in helpers.js there.
-- - FileStorage: src/services/fileStorage/proxy-service.js, the documents of files and directories. Its
--   tests run on the checks of FileAccess.
-- - Hook.Roles, in the same file as Hook: hasRole and hasRoleNoHook, hasPermissionNoHook, isSuperHero,
--   the hooks on schools and disposable addresses.
-- - UserHooks: src/services/user/hooks/userService.js. UserHooks.Hierarchy says whom a user may change,
--   create and delete, UserHooks.Update what of a user, UserHooks.Unique has the addresses,
--   UserHooks.Registration the pins and links, UserHooks.Display names and avatars.
-- - Arrays: src/utils/array.js.
-- - LockingQueue: src/services/ldap/lockingQueue.js.
-- - Videoconference: src/services/videoconference/index.js and its logic folder, with the meetings in
--   Videoconference.Meeting, the checks and stored options in Videoconference.Service and the two
--   services in Videoconference.Conference.
-- - Sync: src/services/sync/strategies. Sync.Stats is Syncer.js, Sync.Records and Sync.Users are
--   CSVSyncer.js, Sync.Importer is mixins/ClassImporter.js, and Sync.Classes is
--   src/services/user-group/logic/classes.js, which reads the names of classes.
--
-- How the code is read. A hook is a function from what it reads of the context to a result, which is
-- the changed context or an error. What the database or another service answers is an argument: a
-- record of the documents that the code reads, or a function from ids to results where it asks
-- several times. Ids are texts, as the code compares them; a field that may be missing is an
-- option. Where the code compares an id that is an object with a text, or two objects, by identity,
-- the model's comparison is false. Where the code throws because it reads a field of undefined, the model returns
-- type_error. Names of definitions are those of the code, in this language's spelling. Times are
-- natural numbers of milliseconds, and arithmetic on natural numbers is exact below the 2 ^ 53 of
-- the language's numbers.
--
-- Loops that may not end take fuel: the resolution of roles, the search for the permission of a
-- team's role, and the sorting of roles by levels. Where roles have a rank above that of each role
-- that they inherit from, there is enough fuel; for roles that inherit from one another there is none.
--
-- Parameters stand for code that is not in src: the Redis store with the laws of SET, GET and DEL, the
-- decoder of tokens, the creation of accounts by the accounts service, and the BigBlueButton server.
-- So are mongoose's tests of ids, ObjectId.isValid for accounts and the cast of a role for teams.
-- Of the import of files, the reader of CSV and the dates of birthdays are parameters. Where the language's own
-- comparison of names by locale, its case mapping or its calendar matters, it is a parameter too.
--
-- Not modelled: the services' queries against MongoDB, the contents of files and their strategies,
-- the synchronisation with LDAP and TSP servers, the messenger, the learning tools and mail
-- transport, which call other servers; configuration, start-up, routes and database models.
mod Base
pub mod ObjectId
pub mod Arrays
pub mod Hook
pub mod Role
pub mod Scope
pub mod LockingQueue
pub mod FileAccess
pub mod SchoolYear
pub mod Consent
pub mod Login
pub mod Pin
pub mod Homework
pub mod UserUc
pub mod UserHooks
pub mod ErrorHandler
pub mod Team
pub mod Account
pub mod Videoconference
pub mod Sync
pub mod FileStorage
