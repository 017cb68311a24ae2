-- ===== src/Lib.antt =====
-- The social service "posts-api" (src/posts_api): profiles, follows, follow requests, blocks, mutes,
-- posts, likes, retweets, and the closing of accounts, with the limits and the outbox they use.
--
-- How the parts interact. An endpoint (src/posts_api/api) opens a session, calls one service
-- (app/services), and the service calls repositories (app/repositories) that run SQL statements in
-- the transaction of that session. An error of the service rolls the transaction back; the marks of
-- the rate limiter are kept elsewhere and stay. Events wait in a table of the same transaction.
--
-- Which file models which part:
--   Common          numbers, lists, rows and actions. Rows gives SELECT, UPDATE and DELETE their
--                   meaning on a list of rows; Action is a call that reads and writes a state and
--                   returns, raises a ProblemError (app/errors.py), or crashes (any other
--                   exception); Action/Rules says what a call leaves when it returns.
--   Models          the dataclasses and enums of app/models.
--   Database        the tables of infrastructure/database/models.py as records, the database as a
--                   record of lists of rows, and what the clocks and sequences hand to a request.
--   RateLimiter     app/repositories/rate_limiter.py: the interface, a session and the end of a
--                   request (infrastructure/database/session.py). RateLimiter/Redis is
--                   infrastructure/redis/rate_limiter.py, with Redis as an argument, and
--                   RateLimiter/Window the fixed window that it implements; in
--                   RateLimiter/Endless is a window whose expiry is lost.
--   Follows         app/repositories/follows.py, and in Follows/Service app/services/follows.py.
--   FollowRequests  app/repositories/follow_requests.py and app/services/follow_requests.py.
--   Blocks, Mutes   app/repositories and app/services, blocks.py and mutes.py.
--   Posts           app/repositories/posts.py and post_visibility.py; Posts/Content and
--                   Posts/Service are app/services/posts.py.
--   Likes, Retweets app/repositories and app/services, likes.py and retweets.py.
--   UserDeletion    app/repositories/user_deletion.py and app/services/user_deletion.py.
--   Outbox          the events of app/events.py and infrastructure/database/outbox_repository.py.
--   Reports         app/repositories/reports.py; Reports/Service is app/services/reports.py and
--                   Reports/Cases app/services/report_cases.py, with users-api as an argument.
--   FeedLanguage    app/repositories/feed_language.py.
--   Pagination      app/pagination.py: the keyset condition, the page and its cursor, over any
--                   order of columns; Pagination/Orders has those of app/pagination.py and
--                   app/feed_pagination.py, and Pagination/Walk a client that follows the cursors.
--                   Pagination/Encoding is the text of the cursors.
--   Replies         the replies to a post, of app/repositories/posts.py and app/services/posts.py;
--                   Posts/Joined has the join of posts and authors that the search uses too.
--   Search          app/search.py; Search/Posts is the statement of app/repositories/posts.py and the
--                   endpoint of api/search.py, with ILIKE as an argument. Search/Windows,
--                   Search/Visible and Search/Rendering have the lemmas on excerpts.
--   Access          app/security.py, infrastructure/redis/revocations.py and the claims and roles of
--                   api/deps.py, with PyJWT and the Redis of users-api as arguments.
--   EventHandlers   api/event_handlers.py; EventHandlers/Parsing reads a message (app/events.py).
--   EventConsumer   infrastructure/rabbitmq/event_consumer.py: settling the messages of any sequence of
--                   deliveries.
--   AccountCounts   app/services/account_counts.py.
--   OutboxPublisher infrastructure/rabbitmq/outbox_publisher.py: the batch, the drain and the rounds
--                   of run, with the broker as an argument.
--   Images          app/image_rules.py; Images/ProfileImages is app/services/profile_images.py and
--                   app/repositories/profile_images.py, with the storage as an argument,
--                   Images/PostMedia is app/repositories/post_media.py, and Images/PostImages is
--                   app/services/post_images.py and the publishing of posts with images.
--   Multipart       api/multipart.py: the forms and their rules; Multipart/Reader has the callbacks
--                   of the reader, Multipart/Reading the loop over the body, with the parser of
--                   python_multipart as an argument, and Multipart/Parts what a client sends.
--   Activity        app/repositories/feed.py and profile_posts.py: the joins, their conditions and
--                   the page, and in Activity/Scrolling a reader of the feed.
--   Listings        app/repositories/follow_listings.py, and the listings of blocks.py, mutes.py and
--                   follow_requests.py; Listings/Service is app/services/follow_listings.py.
--   Profiles        app/services/profiles.py, with users-api as an argument.
--   Graph           what must hold of profiles, follows, requests and blocks, and that each call
--                   keeps it. Posts/Tallies and Posts/Marks do the same for posts and their marks.
--   Tests           concrete accounts, states and runs.
--
-- Each method of a service or repository is a function of the same name or of the name with its
-- object: `FollowRepository.add_follow` is `add_follow`, `LikeRepository.remove` is `remove_like`.
-- Identifiers (UUIDs) and instants are natural numbers, since they are only compared and ordered;
-- text of posts is a list of code points. Counters are integers, with SQL's `greatest` written out;
-- they are INTEGER columns, and that they could pass 2^31 is not modelled. A constraint of a table is
-- a test before the row is written, and a row that fails it is a crash.
-- The rate limiter and the language detector are arguments, of which only Follows/Charging assumes
-- something: that the limiter counts its marks. All
-- functions are structural, with two exceptions: a walk over pages takes a number of requests, one
-- more than rows, and the drain of the outbox a number of passes, one more than rows, which
-- OutboxPublisher/Draining shows to be enough. The broker is an argument, of which
-- OutboxPublisher/AtLeastOnce assumes that it keeps what it confirmed; the parser of forms is one
-- too, and nothing is assumed of it but where it calls for the parts of a form.
--
-- Not modelled: locks and concurrent transactions (a history is a sequence of whole requests),
-- the primary key of the outbox, whose identifiers are made up for each event, fractions of a second
-- in the claims of a token, the order in which the broker delivers, the listing of reported accounts,
-- the connections to the queue and their retries, the endpoints but that of the search, and the
-- clients of other services.
pub mod Common
pub mod Models
pub mod Database
pub mod Follows
pub mod RateLimiter
pub mod FollowRequests
pub mod Blocks
pub mod Multipart
pub mod Mutes
pub mod Outbox
pub mod OutboxPublisher
pub mod Graph
pub mod Search
pub mod UserDeletion
pub mod Posts
pub mod Profiles
pub mod Listings
pub mod Images
pub mod Likes
pub mod Retweets
pub mod Replies
pub mod Reports
pub mod FeedLanguage
pub mod Pagination
pub mod Access
pub mod Activity
pub mod EventHandlers
pub mod EventConsumer
pub mod AccountCounts
pub mod Tests
