-- ===== src/Lib.antt =====
-- DORA metrics backend (backend/, in Go): a model of its core logic, with proofs.
--
-- The program collects deployments and merge requests from GitLab and incidents from Jira, links
-- them, computes the four DORA metrics over rolling windows, gives them a tier, and raises alerts
-- when the tier changes. An API and an MCP server with OAuth give the results to people and tools.
--
-- The parts, all under backend/internal/, and the files that model them:
--   calculator/classification.go   Calculator/Classification: Thresholds, ClassifyDeploymentFrequency,
--                                  ClassifyLeadTime, ClassifyChangeFailureRate, ClassifyMTTR, WorstOf
--   calculator/gaming.go           Calculator/Gaming (AnalyzeGaming), Calculator/Digits (itoa),
--                                  Calculator/Median (medianOfInts)
--   calculator/subcomponents.go    Calculator/LeadTime (Decompose, AggregateLeadTime), Calculator/Median
--   alerts/tier.go                 Tier: the tiers as strings, with the rank tables of four packages
--   gamification/achievements.go   Gamification: EvaluateAchievements
--   identities/automatch.go        Identities: Match
--   prediction/trend.go            Prediction/Trend (Predict), Prediction/Fit (linearRegression)
--   mcp/server/oauth.go            Mcp/OAuth: the maps of clients, codes and tokens, and each handler
--                                  as a function from a state to a state and a reply
--   mcp/server/server.go           Mcp/Server (ServeHTTP, checkAuth, dispatch and its handlers), over
--                                  Mcp/OAuth, Mcp/Tools and Mcp/ResourceUri (parseDoraURI)
--   mcp/server/tools.go            Mcp/Tools: the four tools and fetchMetricsByID
--   mcp/client/atlassian.go        Collector/Jira/Mcp: the client of the MCP source
--   collector/jira/source.go       Collector/Jira (RESTSource.SearchIssues), Collector/Jira/Users
--                                  (SearchUsers), Collector/Jira/Mcp (MCPSource)
--   collector/gitlab/client.go     Collector/Gitlab: the client and its lists
--   integrations/atlassian/        Integrations/Atlassian: the states and connections of service.go,
--                                  and the cipher's wrapper of crypto.go
--   collector/handlers.go          Collector/Gitlab/Collect (HandleCollectGitlab) over
--                                  Collector/Gitlab/Loops and Collector/Gitlab/Tables,
--                                  Collector/Correlation (correlateDeploymentsAndMRs),
--                                  Collector/Jira/Collect (HandleCollectJira), Collector/Incidents (its
--                                  links),
--                                  Collector/Alerts (fanOutAlertsForTierChange),
--                                  Collector/Compute (HandleComputeMetricWindow),
--                                  Collector/Jobs (the fan-outs, firstCommit, resolveToken and others)
--   collector/predict.go           Collector/Predictions (HandlePredictWeekly, firePredictionAlert)
--   collector/digest.go            Collector/Digest (HandleDigestWeekly)
--   collector/alerts.go            Collector/Dispatch (HandleDispatchAlert)
--   collector/alert_destinations.go  Collector/Destinations
--   api/alerts.go                  Api/Alerts: the alert rules and the recent events
--   api/tenant.go                  Api/Tenant: the slug, TenantMiddleware, RequireTenant
--   api/webhooks.go                Api/Webhooks: the webhooks of GitLab and Jira
-- HandleComputeMetricWindow uses the classifiers, and hands the tier before and the new one to
-- fanOutAlertsForTierChange, whose events HandleDispatchAlert delivers. The SQL of the queries that
-- these run (storage/sql/queries) is modelled with them, as functions on lists of rows.
--
-- AccessToken of the Atlassian service gives the token of a Jira collection, which searches over MCP
-- and falls back to REST. The webhooks queue the collections. ValidateToken of the OAuth server is one
-- of the tests that a request to the MCP server must pass.
--
-- Base and Float64 carry what the parts share: numbers, signed and 64-bit integers, lists, texts,
-- dictionaries, sorting. A float64 is an interface with the laws of IEEE comparison that a theorem
-- needs (Float64.IsOrdered, Float64.HasHalves); Float64/Fixed is an instance to run the tests on, with
-- numbers in millionths. An instant is a number; its unit stands at the top of each file. A text that
-- the code builds, walks or compares is a list of code points. A record of a
-- row has the columns that the code reads.
--
-- Loops are structural recursion on the list that they walk, but for two kinds. The searches of
-- Jira and the lists of GitLab go on as long as the service gives pages: they take fuel, one unit
-- for a page, and a search that runs out of it is `none`; the fuel that is enough is a theorem of
-- each. The loop of `itoa` has for fuel the 20 bytes of its buffer: it runs out exactly where the
-- Go code would panic, and a 64-bit integer has at most 19 digits and a sign. 64-bit wrap-around is
-- written out where the code can meet it (`wrap64`, in the negation of `itoa` and in means).
--
-- Parameters stand for the clock, random texts, SHA-256, AES-GCM, JSON decoding, URL parsing,
-- regular expressions, Unicode case, date formats, ISO week names, the decimals of a printed float
-- and pgtype.Numeric, the HTTP client and the secret provider, and for which writes and enqueueings
-- fail.
-- Not modelled: the other REST handlers, the providers of secrets and of reliability data, the
-- aggregates in SQL, configuration, logs and start-up.
pub mod Base
pub mod Float64
pub mod Tier
pub mod Calculator
pub mod Mcp
pub mod Gamification
pub mod Identities
pub mod Prediction
pub mod Collector
pub mod Integrations
pub mod Api
