-- ===== src/Lib.antt =====
-- hub3: a verification library for the full-text search, the search requests, the namespaces, the
-- organizations and the EAD tasks of hub3.
--
-- Prelude is what the modules share: Boolean tests on numbers, lists as Go's sets and maps, Go's
-- `int` as ℤ, and the functions of `strings` and `unicode` that the program uses. A string is the
-- list of its code points. A Go map is an association list without a repeated key; a `range` over
-- it runs in list order, and the theorems are about all lists, so about all orders.
--
-- Search models ikuzo/service/x/search: Search.Vector is vector.go, Search.Matches is matches.go,
-- Search.Phrase is phrase.go, Search.Query is the query tree of query_parser.go, and the parts of
-- tokenizer.go are Search.Token (the token), Search.Tokenizer (`Parse`, over a list of what the
-- calls of text/scanner return) and Search.Highlight (`Highlight`, whose output is a list of
-- pieces).
--
-- Search.Parser is the parser of query_parser.go: Search.Parser.Run is `runParser` with
-- `appendQuery`, `setBoost`, `setFuzziness`, `setWildcard` and `validate`. Its input is the list of
-- the tokens of text/scanner, each with what `Peek` shows behind it. A query is passed on where Go
-- changes it in place, and a use of a nil pointer is an outcome of its own. Index.Search.Words
-- composes the parser, the analyzer and the search.
--
-- Analyzer is analyzer.go and asciifold.go: Analyzer.Cases is the table of `foldRune`, one entry
-- for each case. `unicode.ToLower` behind ASCII is a parameter, and so are the functions of strconv
-- and unicode that the parser of queries uses.
--
-- Index models ikuzo/storage/x/memory/index_full_text.go: Index.TextIndex fills the index from
-- tokens (`setDocID`, `addTerm`, `AppendBytes`, `AppendString`), Index.Match matches one term of a
-- query (`matchTerm`, `matchPhrase`, `matchFuzzy`, `matchWildcard`), and Index.Search is the search
-- of a query tree (`search`, `searchMust`, `searchMustNot`, `searchShould`, `Search`). The hits are
-- passed on as the state that the Go code changes in place, also behind an error.
--
-- Namespace.Uri is `SplitURI`, Namespace.Config the map of config/namespace.go, and Namespace.Entry
-- the namespace of ikuzo/domain/namespace.go. A slice of alternatives is its elements and the room
-- of its array behind them: `append` and the sorting of `Prefixes` and `BaseURIs` work in that
-- array where there is room, and what they leave of the namespace is passed on. How much room
-- `append` makes is a parameter, and no two namespaces share an array. Namespace.Store is
-- ikuzo/storage/memory/namespace.go: its maps hold numbers, which point into a heap of namespaces.
-- Namespace.Service is ikuzo/service/x/namespace/service.go over that store (`Add`, `SearchLabel`);
-- what `generateID` returns is a parameter.
--
-- Ead models ikuzo/service/x/ead: Ead.Task is task.go (`moveState`, `finishState`, `finishTask`,
-- `finishWithError`, `Next`) and Ead.Service the tasks that service.go keeps (`NewTask`,
-- `CancelTask`, `findTask`, `findAvailableTask`). `time.Now` is a parameter, a function of the
-- number of the call. An operation holds the lock from its beginning to its end, but `NewTask` lets
-- go of it between its test, `test_task`, and its entry, `enter_task`: what is said of `NewTask` is
-- about a run in which nothing comes between the two. Ead.Process is `Process`: what the files, the
-- parser, the stores and the goroutines answer is a parameter, and a `CancelTask` may run, as one
-- step, while the goroutines do.
--
-- Organization models ikuzo/domain/organization.go, ikuzo/storage/memory/organization.go and `Put`
-- of ikuzo/service/organization/service.go.
--
-- Fragments models the requests of hub3/fragments/api.go: Fragments.Filter is `NewQueryFilter`,
-- `AsString` and `Equal`, Fragments.Filters what adds filters to a request (`AddQueryFilter` and
-- its kin), Fragments.BreadCrumb `NewUserQuery` and its builder, Fragments.Pager `ScrollPagers`,
-- with `PreviousCurrentNextPage` of resource.go, Fragments.Request `NewSearchRequest`, whose
-- parameters are a list in the order in which `range` meets them, and Fragments.FacetUri the
-- builder of links, `FacetURIBuilder`, whose maps are sorted before they are walked, as in the
-- code. The readers and writers of JSON, protobuf and hex are parameters, and so is `cmp.Equal`;
-- starts and pages are `int32`, which wraps. The other fields of a request and what builds queries
-- for Elasticsearch are not modelled.
--
-- Facet is the shorthand of a facet, `newFacetField` of ikuzo/search/facet.go.
--
-- Loops are structural recursions over lists or trees, but for two: `Parse` of the tokenizer has
-- the number of scans as fuel, and each of its rounds takes one at least; `Parse` of a query has
-- one more than the number of its tokens, since every call of `runParser` takes one. Parameters
-- stand for code outside the repository: the Levenshtein distance of github.com/antzucaro/matchr is
-- any function, and for the index `transform` is any function in the place of `Analyzer.Transform`.
-- The counters of the search are unbounded, those of the EAD service wrap at 2 ^ 64.
pub mod Prelude
pub mod Search
pub mod Index
pub mod Analyzer
pub mod Namespace
pub mod Ead
pub mod Organization
pub mod Fragments
pub mod Facet
