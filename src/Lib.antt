-- ===== src/Lib.antt =====
-- zfl: federated learning of a small network, with a server and clients on simulated boards.
--
-- The program. `zfl` (zfl.c) reads its command line and starts the server or the clients. The server
-- (zflserver/src/main.c) takes requests over HTTP (http.h): a client asks for an id, fetches its
-- training data, and posts its weights as JSON. One thread waits until as many clients as a round
-- needs are ready, and starts the round; a thread for each connection parses the results (cson.h,
-- common.h) and adds them up; the last of the participants ends the round with the average. Texts are
-- built in sb.h, tables in da.h, and the network is nn.h.
--
-- The files.
--   Base, Base/Tests, Base/Lists: names shared by all; Boolean tests, `if`, the monad of faults,
--     lists over the native numbers. Base/Loops has counted loops and lists as functions, Base/Cells
--     tables in flat lists, Base/Passes and Base/Sums the double and the threefold loop.
--   Memory: blocks of cells. `realloc` keeps what there was, and new cells hold what a parameter
--     `fresh` says. A store outside of a block is `none`.
--   StringBuilder, StringBuilder/Laws: sb.h. `contents` is the text.
--   DynamicArray, DynamicArray/Laws: da.h. NULL is the array with no block; `elements` is the list.
--   Http, Http/Request, Http/Query, Http/Receive: http.h. A pointer is what is left of its block from
--     there on, -1 is `none`, and reading behind a block is the outer `none`. `sub_size` is the
--     subtraction on size_t, with its wrap-around. What `recv` delivers is a list of chunks.
--     Http/Find, RoundTrip, Headers, QueryLaws and ReceiveLaws hold the theorems.
--   Cson: cson.h. The cursor is the bytes left, and `past` is the byte behind the buffer, which
--     `advance` reads. Cson/Syntax is JSON by itself: its values, their texts and their tokens.
--     Cson/Numbers, Steps, Gaps and RoundTrip hold the theorems.
--   Common, Common/Payload, Common/Weights, Common/Print: common.h. Floats, with strtof and the "%f"
--     of vsnprintf, are a parameter; so are atol, atoi and strtoll. Common/Text and Brackets have the
--     text of weights by itself, Common/Message its place in a message; Common/Read and Common/RoundTrip are about
--     reading it back.
--   Server: the globals of zflserver/src/main.c as a record. Server/Log is log_append, Server/Clients
--     send_id and extract_id, Server/Results update_stats and handle_results, Server/Rounds
--     start_round, Server/Routes handle_incoming_connection. Server/Steps has the threads: a section
--     between lock and unlock is a step, and any steps may follow each other. Server/Training is what
--     start_round sends to the clients, Server/Files send_file and the files of a client,
--     Server/Report the text of write_stats (with Report/Text), and Server/Start main up to the socket; what fread
--     delivers is a list of chunks. Training/Text, Training/Sends, Server/LogLaws,
--     ClientsLaws, StatsLaws, RoundLaws, Settle (the average), Soundness and Invariant hold the
--     theorems.
--   Options, Options/Laws: the command line of zfl.c. Options/Launch, LaunchLaws: the commands, names
--     and texts of start_server and start_client, with the answers of the system as data.
--   Client: send_weights of zflclient/src/main.c, over what the sockets do. Client/Requests: recvall,
--     get_request and the three requests, run, init_model, and handle_incoming_connection with
--     the training and the results it sends. Client/Train: train of zflclient/src/train.h, but for
--     what it prints; num_epochs is not negative. Client/Tries, Client/Message, Client/Delivery,
--     Client/Requests/Start, Client/Requests/Round and Client/Train/Results hold the theorems.
--   Network/TrainSet: init_train_set of common.h, with its theorem.
--   Sockets: sendall.
--   Data: tools/data.c, over the contents of its files; Data/Shuffle and Data/Splits hold the theorems.
--   Network, Network/Laws: regions of nn.h, what nn_alloc takes of one, and the rows that
--     batch_process takes. Where the source
--     asserts, `none`.
--   Network/Matrix: the matrices and rows of nn.h, as flat lists, with the functions on them, mat_dot
--     included. Matrix/Cells and Matrix/Dot say what they make of matrices that are functions;
--     Matrix/Shuffle is mat_shuffle_rows.
--   Network/Forward: nn_forward, nn_cost and nn_cross_entropy; Forward/Accuracy: accuracy of common.h.
--     Forward/Spec has networks as layers of functions. Forward/Layers, Repeat, Rows, Cost and Scores
--     hold the theorems.
--   Network/Learn: nn_alloc without a region, nn_rand and nn_learn of nn.h, insert_weights_to_nn and
--     init_nn of common.h. Learn/Layers and Learn/Results hold the theorems.
--   Network/Backprop: nn_zero and nn_backprop. Backprop/Rows and Layer are about one layer,
--     Chain about all layers, Sample and Result about one row, Zero and Gradients about
--     the whole call, and Backprop/Learned about nn_learn behind it.
--   Tests: concrete runs, and inputs at which the theorems apply.
--
-- Fuel. `optional_loop`, `query_loop` and the loops of the scanner run on fuel. The callers give as
-- much as there are bytes, and one more: a round that goes on moves forward. The theorems on requests, on a
-- query's first parameter and on JSON state that a result comes, so that the fuel is enough there.
--
-- Bounds. Where a size_t becomes an int (the round number of update_stats, the result of send_file), the
-- int is the word of its 32 bits. The region of train has its 500 KiB, in words of 4 bytes as on a
-- client's board; other regions, and all blocks of malloc, have room.
--
-- Not modelled: nn_finite_diff (nn.h), and the training calls of batch_process; sb_bytes and
-- sb_open_file (sb.h); the reading of files, pretty_print and free_tokens (cson.h); http_free (http.h);
-- get_stats, the sockets and the threads of the clients' operating system; accept_conns, the sockets
-- and the window of the server, and its traffic control process; the processes themselves that zfl.c
-- starts; printf; test.c and the scripts of tools/. Files are lists of bytes or chunks, and where the
-- source asserts that they open, they do. The accuracy and the loss of a network, and vsnprintf, are
-- parameters of the server's handling of results.
pub mod Base
pub mod Memory
pub mod StringBuilder
pub mod DynamicArray
pub mod Http
pub mod Cson
pub mod Client
pub mod Common
pub mod Network
pub mod Options
pub mod Data
pub mod Server
pub mod Sockets
pub mod Tests
