-- ===== src/Lib.antt =====
-- Verification of the emeraldDB server: a document store that keeps BSON objects in a memory-mapped file
-- and serves them to clients, one thread for each connection.
--
-- The program's parts. pmd (pmd/) is the process: it runs a listener and a pool of threads, called EDUs, which
-- its manager hands out and takes back. The listener (pmd/pmdTcpListener.cpp) starts an agent for each client
-- that connects. An agent (pmd/pmdAgent.cpp) reads requests (msg/), calls the runtime (rtn/), and that calls
-- the record store (dms/), which reads and writes a memory-mapped file (oss/). The client shell (client/) reads
-- the lines that are typed, sends their requests, and prints the replies.
--
-- What models what:
--   Core       include/core.hpp: the error codes (Rc).
--   Bson       what the server asks of the BSON library, a parameter of the store: the bytes of an object, and
--              that reading those bytes back gives the object.
--   Memory     the memory of the process as bytes, with 32-bit words in little endian, memcpy, memmove and memset.
--     Puts        runs of bytes that are written one behind the other.
--   Dms        dms/dms.cpp, include/dms.hpp and include/dmsRecord.hpp.
--     Layout      constants, record ids, and the fields of a page by their offsets.
--     FreeSpace   _freeSpaceMap; Index states that it has one entry for each page.
--     Page        _searchSlot, _recoverSpace and the parts of insert and remove that write into a page
--                 (write_record, count_record, drop_record); its children prove what they do. Moved is about a
--                 page whose bytes stand at another place.
--     File        the class dmsFile: pageToOffset, _findPage, _updateFreeSpace, insert (insert_once is one
--                 pass from the label retry on), remove and find.
--     Extend      _extendFile and _extendSegment, with ossMmapFile::map (oss/ossMmapFile.cpp); what the
--                 system answers is an argument. Fresh, Segment and Extended are about the new pages.
--     Open        initialize, _initNew and _loadData; the bytes on disk are an argument. New is about a
--                 new file, Mapping and Reopen about one that was saved.
--     Insertion   insert with its checks and its loop over turns, each an extension or a wait, with what the other
--                 threads do to the file meanwhile.
--     History     the operations one after the other, from initialize on.
--   FileOp     oss/ossPrimitiveFileOp.cpp: Write and Read with their loops.
--   MmapFile   oss/ossMmapFile.cpp: open, map and close with the list of segments, and Open, Close and openStdout
--              of oss/ossPrimitiveFileOp.cpp. Regions is about what is mapped and unmapped.
--   Edu        pmd/pmdEDUMgr.cpp, pmd/pmdEDU.cpp and their headers.
--     OrderedMap  std::map with unsigned keys.
--     Block       the control block pmdEDUCB, its events, and waitEvent over an ossQueue.
--     Manager     pmdEDUMgr: lookups, postEDUPost, waitEDUPost, waitEDU, activateEDU, _deactivateEDU, _destroyEDU.
--     Pool        startEDU, _createNewEDU and returnEDU.
--     Force       forceUserEDU, _forceEDUs, _getEDUCount and the system EDUs.
--     Forced      what forcing keeps.
--     Shutdown    _destroyAll; Empties is about its return.
--     Registry    the names of the EDU types and the table of main functions.
--     Thread      pmdEDUEntryPoint, the main loop of a thread.
--     Invariant, Change, Table, Step, Waited, Reach, Return, Start, Started, Lost   what holds of them; Table is the transition
--                 table of the source, and Step its critical sections.
--   Msg        msg/msg.cpp and include/msg.hpp: the builders and extractors of messages, over memory.
--     Objects, Build, Written   the objects, the header and the words that a builder writes.
--     RoundTrip   the extractors on what the builders made.
--   Socket     oss/ossSocket.cpp: send and recv over the answers of select, send and recv; pmdRecv and
--              pmdSend of pmd/pmdEDU.cpp, which call them.
--     Recv, Send, Transfer   what is received and sent.
--   Rtn        rtn/rtn.cpp: rtnInitialize, rtnInsert, rtnFind and rtnRemove.
--   Agent      pmd/pmdAgent.cpp: pmdProcessAgentRequest (perform up to its label done, reply from there on).
--     Loop        pmdAgentEntryPoint, whose rounds take what the system and the other threads do.
--     Process, Request, Room, Round, Served   what holds of them.
--   Process    pmd/pmdMain.cpp and pmd/pmd.cpp: the status of the database, the signals and the main thread.
--   Listener   pmd/pmdTcpListener.cpp: the loop over the retries and the loop that listens, over the manager.
--     Port, Traced, Returns   the port, what becomes of the clients, and its return.
--   Client     client/edb.cpp, client/command.cpp and client/commandFactory.cpp.
--     Line        readLine, readInput and split. Split and Input are about the words and the line.
--     Prompt      prompt and getCommandProcesser. Chosen is about the command and its words.
--     Message     sendOrder, recvReply and the commands. Delivered, Replied, Reported, Unheard and Ordered are
--                 about the messages that come and go.
--   Tests      concrete runs.
--
-- State and steps. A function that runs under a latch from its first access to its return is one function on
-- the state. insert releases its latch between two passes, so its loop takes a list of turns, in which the other
-- threads change the file before an extension, between it and the next pass, and during a wait; _extendSegment
-- itself is one step. The critical sections of the manager are the steps of Edu.Step, in any order.
--
-- Bounds. Addresses are natural numbers; the fields of a page are 32-bit words whose arithmetic wraps where the
-- source's does. The pages are of 4 MiB, 32 to a segment. The loops over slots, pages and queue entries are
-- structural, so no fuel is needed; the loop of insert is over the list of turns. The loops of the sockets,
-- of the agent, of the listener and of the client are over the lists of what the system answers, and are stuck
-- where a list ends. The loop of split goes over a text with its length as fuel, since each word takes a
-- character at least, and the loop over continued lines has the characters left as fuel. The ids
-- of the EDUs are 64-bit numbers, and a step that makes an EDU has the hypothesis that they do not wrap.
--
-- A well-formed page (Dms.Page.Invariant.IsPage) has its records stacked from its end downwards in the order of
-- their slots, with all bytes accounted for. A well-formed file (Dms.File.Invariant.IsFile) has well-formed
-- pages, segments that do not overlap, and a free-space map with one entry for each page. StoredAt says that
-- the bytes of an object are held under a record id.
--
-- An int is the 32-bit word that holds it, and lt_int compares two of them with their signs. An exception of the
-- BSON library is the answer false of AgentBson.readable. A signed addition that overflows, which C++ leaves
-- open, wraps around.
--
-- Not modelled: the loop of the shell that repeats prompt, and its text of help; the options of the process;
-- the thin calls of the socket interface and of the file interface; logging and latches, which have no state
-- that the rest depends on; the BSON library, a copy of another project's, whose reading of a text is a parameter of the client.
pub mod Base
pub mod Memory
pub mod Core
pub mod Bson
pub mod FileOp
pub mod MmapFile
pub mod Process
pub mod Msg
pub mod Socket
pub mod Rtn
pub mod Agent
pub mod Dms
pub mod Edu
pub mod Client
pub mod Listener
pub mod Tests
